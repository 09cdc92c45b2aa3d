-- ===== src/Clients/Verify.antt =====
-- `verifyClientEmail` of packages/core/src/clients.ts.
use dohost.Base.{none, some, [], ◌∷◌, ◌++◌, Text, codes, if◌then◌else◌}
use dohost.Service.{Action, ◌>>=◌, ◌>>◌, pure, lift, modify, or_throw, transaction}
use dohost.Store.{RowId, Tables, Time}
use dohost.Data.{
  Db, Client, ClientContact, ClientStatus, VerificationStatus, ActorType, AuthActor, EmailTemplate,
  EmailVerificationToken,
}
use dohost.Outside.{Outside}
use dohost.Emails.{EmailInput, queue_email}
use dohost.Tokens.{check_verification, find_verification}
use dohost.Clients.{status_eq, transition_client_status}

abbrev pub welcome_email : Outside → ClientContact → RowId → EmailInput
welcome_email outside contact contact_id = record {
  to = contact.email;
  subject = codes "Welcome to " ++ outside.app_name;
  template = EmailTemplate.welcome;
  props =
      (codes "appName", outside.app_name)
      ∷ (codes "recipientName", contact.first_name)
      ∷ (codes "loginUrl", outside.app_url ++ codes "/login")
      ∷ [];
  related_entity_type = some (codes "CLIENT_CONTACT");
  related_entity_id = some contact_id;
}

module _ (T : Tables) where
  -- `if (client.status === "PENDING_VERIFICATION")`: the client becomes active and verified.
  unfoldable pub activate : RowId → RowId → Client → Action (Db T) (Unit {0})
  activate contact_id client_id client =
      if status_eq client.status ClientStatus.pending_verification
      then (transition_client_status T client_id ClientStatus.active
            (record { type = ActorType.client_contact; id = some contact_id; label = none })
            (some (codes "email_verified"))
          >>= λ updated. modify (λ db. record db {
            clients =
                T.write db.clients client_id
                  (record updated { verification_status = VerificationStatus.verified });
          }))
      else pure tt

  -- The body of the transaction.
  unfoldable pub consume_verification :
      Time → RowId → EmailVerificationToken → RowId → ClientContact → Action (Db T) (Unit {0})
  consume_verification now token_id r contact_id contact = do
    modify (λ db. record db {
      client_contacts =
          T.write db.client_contacts contact_id (record contact { email_verified_at = some now });
    })
    modify (λ db. record db {
      verification_tokens =
          T.write db.verification_tokens token_id (record r { consumed_at = some now });
    })
    client ← (λ db. or_throw (T.find db.clients contact.client_id) db)
    activate contact_id contact.client_id client

  -- `verifyClientEmail`
  unfoldable pub verify_client_email : Outside → Time → Text → Action (Db T) (Unit {0})
  verify_client_email outside now token = do
    found ← (λ db. pure (find_verification T (outside.hash_token token) db) db)
    (token_id, r) ← lift (check_verification AuthActor.client_contact now found)
    contact ← (λ db. or_throw (T.find db.client_contacts r.actor_id) db)
    transaction (consume_verification now token_id r r.actor_id contact)
    queue_email T outside contact.tenant_id (welcome_email outside contact r.actor_id)
