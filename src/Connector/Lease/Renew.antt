-- ===== src/Connector/Lease/Renew.antt =====
-- services/connector/src/main.rs: `/session/renew`.
use callifornia.Commands.Laws.{IsRedis}
use callifornia.Commands.Rules.{On}
use callifornia.Connector.Config.{Config}
use callifornia.Connector.Handlers.{known_session, session_renew}
use callifornia.Connector.Message.{SessionRenewRequest}
use callifornia.Connector.Redis.{
  SessionData, session_key, nick_key, nick_owner_get, session_get, to_session_data,
}
use callifornia.ControlStore.Heartbeat.{non_empty}
use callifornia.Exec.{ok, pure}
use callifornia.Exec.Ensures.{
  Ensures, Ensures-bind, Ensures-Keeps, Ensures-guard, Ensures-map_err, Ensures-or_raise,
  Ensures-weaken, Ensures-const, Ensures-carry,
}
use callifornia.Map.{lookup}
use callifornia.Prelude.{
  String, Option, none, some, true, false, is_text, ◌==◌, eq_iff, ◌≡◌, refl, ◌∙◌, sym, ap, arith,
  Bool-cases, inl, inr,
}
use callifornia.Services.{Services}
use callifornia.Connector.Lease.{HasLease, Are, Keeps-validated, query-Ensures}

module _ ⦃v : Services⦄ (laws : IsRedis) (known : v.Db) where
  session_get-Ensures :
      (id : String)
      → Ensures (On laws (Are known)) (session_get id) (λ found. On laws (λ d.
        Are known d
        × (found
            ≡ to_session_data (non_empty (lookup "nickname" (v.hgetall (session_key id) known))))))
  unfolding session_get pure
  session_get-Ensures id =
      Ensures-bind _ _
        (query-Ensures laws known (λ d. lookup "nickname" (v.hgetall (session_key id) d)))
        λ nickname. record { at = λ x found h e. (h.0, cc (h.1, e)) }

  shown :
      (s : String)
      → (s == "") ≡ false
      → to_session_data (non_empty (some s)) ≡ some (record { nickname = s })
  unfolding non_empty
  shown s e = rw e refl

  abbrev nickname_of : Option SessionData → Option String
  nickname_of none = none
  nickname_of (some session) = some session.nickname

  -- What is read of a session is its nickname, which is not empty.
  session_data :
      (found : Option String) (session : SessionData)
      → to_session_data (non_empty found) ≡ some session
      → found ≡ some session.nickname
  unfolding non_empty
  session_data none session h = absurd cc
  session_data (some s) session h = elim (Bool-cases (s == "")) [
    | inl e ↦ absurd (ground (arith, h, e))
    | inr e ↦ ap nickname_of (sym (shown s e) ∙ h)
  ]

  known_session-Ensures :
      (config : Config) (id : String)
      → Ensures (On laws (Are known)) (known_session config id) (λ session. On laws (λ d.
        Are known d
        × (lookup "nickname" (v.hgetall (session_key id) known) ≡ some session.nickname)))
  unfolding known_session
  known_session-Ensures config id =
      Ensures-bind _ _ (Ensures-map_err _ _ (session_get-Ensures id)) λ found.
        Ensures-weaken _ (λ session x h. (h.0.0, session_data _ session (sym h.0.1 ∙ h.1)))
          (Ensures-or_raise found _)

  nick_owner_get-Ensures :
      (nickname : String)
      → Ensures
          (On laws (Are known))
          (nick_owner_get nickname)
          (λ owner. On laws (λ d. Are known d × (owner ≡ v.get (nick_key nickname) known)))
  unfolding nick_owner_get
  nick_owner_get-Ensures nickname = query-Ensures laws known (v.get (nick_key nickname))

  owned : (owner : Option String) (id : String) → is_text owner id ≡ true → owner ≡ some id
  owned none id h = absurd cc
  owned (some s) id h = ap some ((eq_iff s id).0 h)

  renew-Ensures :
      (config : Config) (payload : SessionRenewRequest)
      → Ensures
          (On laws (Are known))
          (session_renew config payload)
          (λ _ _. (nickname : String) × HasLease nickname payload.session_id known)
  unfolding session_renew
  renew-Ensures config payload =
      Ensures-bind _ _ (Ensures-Keeps _ (Keeps-validated config _ _)) λ _.
        Ensures-bind _ _ (known_session-Ensures config payload.session_id) λ session.
          Ensures-bind _ _
            (Ensures-carry _ (Ensures-map_err _ _ (nick_owner_get-Ensures session.nickname)))
            λ owner. Ensures-bind _ _ (Ensures-guard _ _) λ _. Ensures-const _ λ x h. (
              session.nickname,
              record { reserved = sym h.0.0.1 ∙ owned owner payload.session_id h.1; named = h.0.1 },
            )

module _ ⦃v : Services⦄ (laws : IsRedis) where
  -- If Redis works as documented, a session is renewed only if its nickname is reserved for it in Redis.
  pub session_renew-HasLease :
      (config : Config) (payload : SessionRenewRequest) (x : v.Ext)
      → (session_renew config payload x).0 ≡ ok tt
      → (nickname : String) × HasLease nickname payload.session_id (laws.db x)
  session_renew-HasLease config payload x e =
      (renew-Ensures laws (laws.db x) config payload).at x tt refl e
