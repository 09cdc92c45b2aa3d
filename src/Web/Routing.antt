-- ===== src/Web/Routing.antt =====
-- apps/web/src/proxy.ts: which requests go on, by the path and the kind of session.
use dohost.Base.{
  Bool, false, not, Option, none, some, List, [], ◌∷◌, Text, codes, text_eq, any, ◌&&◌, ◌||◌,
  if◌then◌else◌,
}
use dohost.Data.{AuthActor, staff, client_contact}
use dohost.LoginGuard.{same_actor_type}
use dohost.Web.{starts_with}

-- `NextResponse.next()`, or a redirect to a path, with the parameter `next` if it has one.
pub data Response : Type 0 where
  pass : Response
  redirect_to : Text → Option Text → Response

-- STAFF_PUBLIC_PATHS
abbrev pub staff_public_paths : List Text
staff_public_paths =
    codes "/admin/login"
    ∷ codes "/admin/set-password"
    ∷ codes "/admin/reset-password"
    ∷ codes "/admin/setup"
    ∷ []

-- CLIENT_PUBLIC_PATHS
abbrev pub client_public_paths : List Text
client_public_paths =
    codes "/login"
    ∷ codes "/register"
    ∷ codes "/verify-email"
    ∷ codes "/reset-password"
    ∷ codes "/"
    ∷ []

-- `session?.actorType === wanted`
abbrev pub is_session_of : AuthActor → Option AuthActor → Bool
is_session_of wanted none = false
is_session_of wanted (some actor_type) = same_actor_type actor_type wanted

-- `STAFF_PUBLIC_PATHS.some((p) => pathname.startsWith(p))`
abbrev pub is_staff_public : Text → Bool
is_staff_public path = any (λ p. starts_with p path) staff_public_paths

abbrev pub is_admin_path : Text → Bool
is_admin_path path = starts_with (codes "/admin") path

abbrev pub is_portal_path : Text → Bool
is_portal_path path = starts_with (codes "/portal") path

-- The branch of "/admin".
unfoldable pub admin_response : Text → Option AuthActor → Response
admin_response path session =
    if is_staff_public path
    then pass
    else (if not (is_session_of staff session)
        then redirect_to (codes "/admin/login") (some path)
        else pass)

-- The branch of "/portal".
unfoldable pub portal_response : Text → Option AuthActor → Response
portal_response path session =
    if not (is_session_of client_contact session)
    then redirect_to (codes "/login") (some path)
    else pass

-- The pages that anybody sees: a client who has a session is sent on from two of them.
unfoldable pub public_response : Text → Option AuthActor → Response
public_response path session =
    if any (text_eq path) client_public_paths && is_session_of client_contact session
    then (if text_eq path (codes "/login") || text_eq path (codes "/register")
        then redirect_to (codes "/portal") none
        else pass)
    else pass

-- `proxy`, for a path and the actor type of the session.
unfoldable pub proxy : Text → Option AuthActor → Response
proxy path session =
    if is_admin_path path
    then admin_response path session
    else (if is_portal_path path
        then portal_response path session
        else public_response path session)
