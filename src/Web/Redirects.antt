-- ===== src/Web/Redirects.antt =====
-- Where the proxy sends a request, and what it lets through.
use dohost.Base.{
  ◌≡◌, refl, ◌∙◌, ap, true, false, Option, none, some, Text, codes, inl, inr, Bool-cases,
  if◌then◌else◌, arith,
}
use dohost.Data.{AuthActor, staff, client_contact}
use dohost.Web.{starts_with}
use dohost.Web.Routing.{
  Response, pass, redirect_to, is_session_of, is_staff_public, is_admin_path, is_portal_path,
  admin_response, portal_response, public_response, proxy,
}

-- A page of the administration that is not public goes through for a session of staff and for no
-- other; any other visitor is sent to the log-in, with the way back.
pub proxy-admin :
    (path : Text) (session : Option AuthActor)
    → is_admin_path path ≡ true
    → is_staff_public path ≡ false
    → proxy path session ≡ (
        if is_session_of staff session
        then pass
        else redirect_to (codes "/admin/login") (some path))
unfolding proxy admin_response
proxy-admin path session admin private = elim (Bool-cases (is_session_of staff session)) [
  | inl held ↦ rw (admin, private, held)
  | inr other ↦ rw (admin, private, other)
]

-- The log-in page of staff is shown to anybody.
admin_login-passes : (session : Option AuthActor) → proxy (codes "/admin/login") session ≡ pass
unfolding proxy admin_response starts_with
admin_login-passes session = refl

-- The log-in page of clients is shown to whom is not logged in as a client.
login-passes :
    (session : Option AuthActor)
    → is_session_of client_contact session ≡ false
    → proxy (codes "/login") session ≡ pass
unfolding proxy public_response starts_with
login-passes session other = rw other

portal-passes :
    (session : Option AuthActor)
    → is_session_of client_contact session ≡ true
    → proxy (codes "/portal") session ≡ pass
unfolding proxy portal_response starts_with
portal-passes session held = rw held

-- Where a redirect leads to.
abbrev pub target_of : Response → Option Text
target_of pass = none
target_of (redirect_to target next) = some target

admin_response-target :
    (path target : Text) (session : Option AuthActor)
    → target_of (admin_response path session) ≡ some target
    → target ≡ codes "/admin/login"
unfolding admin_response
admin_response-target path target session h = ground arith

portal_response-target :
    (path target : Text) (session : Option AuthActor)
    → target_of (portal_response path session) ≡ some target
    → (target ≡ codes "/login") × (is_session_of client_contact session ≡ false)
unfolding portal_response
portal_response-target path target session h = ground arith

public_response-target :
    (path target : Text) (session : Option AuthActor)
    → target_of (public_response path session) ≡ some target
    → (target ≡ codes "/portal") × (is_session_of client_contact session ≡ true)
unfolding public_response
public_response-target path target session h = ground arith

-- A redirect leads to a page that goes through for the same session, so that no request is sent
-- around for ever.
pub proxy-settles :
    (path target : Text) (session : Option AuthActor)
    → target_of (proxy path session) ≡ some target
    → proxy target session ≡ pass
unfolding proxy
proxy-settles path target session h =
    let go = λ (t : Text) (same : target ≡ t) (passes : proxy t session ≡ pass).
      ap (λ x. proxy x session) same ∙ passes in
    elim (Bool-cases (is_admin_path path)) [
      | inl admin ↦
          go _ (admin_response-target path target session (rw admin at h))
            (admin_login-passes session)
      | inr not_admin ↦ elim (Bool-cases (is_portal_path path)) [
        | inl portal ↦
            let (same, other) =
              portal_response-target path target session (rw (not_admin, portal) at h) in
            go _ same (login-passes session other)
        | inr neither ↦
            let (same, held) =
              public_response-target path target session (rw (not_admin, neither) at h) in
            go _ same (portal-passes session held)
      ]
    ]
