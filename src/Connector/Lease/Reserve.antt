-- ===== src/Connector/Lease/Reserve.antt =====
-- services/connector/src/main.rs: `/auth`.
use callifornia.Commands.Laws.{IsRedis}
use callifornia.Commands.Rules.{On, Ensures-send}
use callifornia.Connector.Config.{Config}
use callifornia.Connector.Handlers.{settle, auth}
use callifornia.Connector.Message.{AuthRequest, AuthResponse}
use callifornia.Connector.Redis.{
  RedisError, from_fault, command, write, session_key, nick_key, reserve_nickname, session_create,
}
use callifornia.Exec.{Result, ok, err, raise}
use callifornia.Exec.Ensures.{
  Ensures, Ensures-bind, Ensures-Keeps, Ensures-guard, Ensures-attempt, Ensures-map_err,
  Ensures-pure, Ensures-weaken, IfOk,
}
use callifornia.Exec.Keeps.{Keeps-total, keeps_rules}
use callifornia.Map.{lookup}
use callifornia.Numerals.Words.{as_i64-small}
use callifornia.Prelude.{ℕ, ◌<◌, ◌^◌, String, none, some, ◌≡◌, refl, ◌∙◌, sym, ap}
use callifornia.Services.{Services}
use callifornia.Texts.{trim}
use callifornia.Connector.Lease.{HasLease, Are, Keeps-validated}

module _ ⦃v : Services⦄ (laws : IsRedis) (known : v.Db) (nickname session_id : String) where
  -- The nickname was free, and is reserved for the session.
  IsReserved : v.Db → Type 0
  IsReserved d =
      (v.get (nick_key nickname) known ≡ none) × (v.get (nick_key nickname) d ≡ some session_id)

  reserve-Ensures :
      Ensures (On laws (Are known)) (reserve_nickname nickname session_id) (λ _. On laws IsReserved)
  unfolding reserve_nickname command IsReserved
  reserve-Ensures =
      Ensures-bind _ _
        (Ensures-send laws from_fault (Are known)
          (λ acquired d.
            (acquired ≡ (v.set_nx (nick_key nickname) session_id known).0)
            × (d ≡ (v.set_nx (nick_key nickname) session_id known).1))
          _ (λ d h. rw h (refl, refl)))
        λ acquired.
          Ensures-weaken _
            (λ _ x h.
              let (free, set) =
                laws.set_nx-get (nick_key nickname) session_id known (sym h.0.0 ∙ h.1) in
              (free, rw h.0.1 set))
            (Ensures-guard acquired _)

  write-Ensures :
      (P Q : v.Db → Type 0) (f : v.Db → v.Db)
      → ((d : v.Db) → P d → Q (f d))
      → Ensures (On laws P) (write f) (λ _. On laws Q)
  unfolding write
  write-Ensures P Q f k = Ensures-send laws from_fault P (λ _. Q) _ k

  Leased : v.Db → Type 0
  Leased d = (v.get (nick_key nickname) known ≡ none) × HasLease nickname session_id d

  session_create-Ensures :
      (ttl : ℕ)
      → 0 < ttl
      → ttl < 2 ^ 63
      → Ensures (On laws IsReserved) (session_create session_id nickname ttl) (λ _. On laws Leased)
  unfolding session_create command IsReserved Leased
  session_create-Ensures ttl alive small = rw (as_i64-small ttl small) (
      Ensures-bind _ _
        (write-Ensures IsReserved Leased _ λ d h. (
          h.0,
          record {
            reserved = laws.get-hset _ _ _ _ d ∙ h.1;
            named = laws.lookup-hset (session_key session_id) "nickname" nickname "nickname" d;
          },
        ))
        λ _.
          Ensures-bind _ _
            (write-Ensures Leased Leased _ λ d h. (
              h.0,
              record {
                reserved = laws.get-hset _ _ _ _ d ∙ h.1.reserved;
                named =
                    laws.lookup-hset (session_key session_id) "room_id" "" "nickname" d ∙ h.1.named;
              },
            ))
            λ _.
              Ensures-bind _ _
                (Ensures-send laws from_fault Leased (λ _. Leased) _
                  λ d h. (
                    h.0,
                    record {
                      reserved = laws.get-expire _ _ ttl d alive ∙ h.1.reserved;
                      named =
                          ap (lookup "nickname") (laws.hgetall-expire _ _ ttl d alive) ∙ h.1.named;
                    },
                  ))
                λ _. Ensures-Keeps _ (search keeps_rules))

  settle-Ensures :
      (config : Config) (r : Result RedisError (Unit {0}))
      → Ensures
          (IfOk (λ _. On laws Leased) r)
          (settle config nickname session_id r)
          (λ _. On laws Leased)
  unfolding settle raise
  settle-Ensures config (ok _) = Ensures-Keeps _ (search keeps_rules)
  settle-Ensures config (err e) =
      Ensures-bind {Q = λ _ _. Unit {0}} _ _ (record { at = λ x a h k. tt })
        λ _. record { at = λ x a h k. absurd cc }

module _ ⦃v : Services⦄ (laws : IsRedis) (known : v.Db) (config : Config)
    (payload : AuthRequest) where
  -- The reply's nickname is the one asked for, without the space round it; it was free, and is
  -- reserved for the reply's session.
  abbrev pub IsTaken : AuthResponse → v.Db → Type 0
  IsTaken reply d =
      (reply.nickname ≡ trim payload.nickname)
      × (v.get (nick_key reply.nickname) known ≡ none)
      × HasLease reply.nickname reply.session_id d

  taken :
      (reply : AuthResponse) (session_id : String) (d : v.Db)
      → record { nickname = trim payload.nickname; session_id = session_id } ≡ reply
      → Leased laws known (trim payload.nickname) session_id d
      → IsTaken reply d
  unfolding Leased
  taken reply session_id d e h = rw (← e) (refl, h.0, h.1)

  auth-Ensures :
      0 < config.session_ttl
      → config.session_ttl < 2 ^ 63
      → Ensures (On laws (Are known)) (auth config payload) (λ reply. On laws (IsTaken reply))
  unfolding auth
  auth-Ensures alive small = Ensures-bind _ _ (Ensures-Keeps _ (Keeps-validated config _ _)) λ _.
      Ensures-bind _ _ (Ensures-Keeps _ (Keeps-total _ λ x h. laws.db-new_uuid x ∙ h)) λ id.
        Ensures-bind _ _
          (Ensures-map_err _ _ (reserve-Ensures laws known (trim payload.nickname) id))
          λ _.
            Ensures-bind _ _
              (Ensures-attempt _ (
                session_create-Ensures laws known (trim payload.nickname) id config.session_ttl
                  alive small))
              λ created.
                Ensures-bind _ _
                  (settle-Ensures laws known (trim payload.nickname) id config created)
                  λ _.
                    Ensures-weaken _ (λ reply x h. taken reply id (laws.db x) h.1 h.0)
                      (Ensures-pure _)

module _ ⦃v : Services⦄ (laws : IsRedis) where
  -- If Redis works as documented and `/auth` succeeds, the nickname of the reply is the one asked for
  -- without the space round it, no session had it reserved before, and then it is reserved for the
  -- session of the reply, which has it as its nickname. The time to live of a session is positive, and
  -- below 2^63 seconds.
  pub auth-IsTaken :
      (config : Config) (payload : AuthRequest) (x : v.Ext) (reply : AuthResponse)
      → 0 < config.session_ttl
      → config.session_ttl < 2 ^ 63
      → (auth config payload x).0 ≡ ok reply
      → IsTaken laws (laws.db x) config payload reply (laws.db (auth config payload x).1)
  auth-IsTaken config payload x reply alive small e =
      (auth-Ensures laws (laws.db x) config payload alive small).at x reply refl e
