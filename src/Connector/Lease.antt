-- ===== src/Connector/Lease.antt =====
-- services/connector/src/main.rs: a nickname that is reserved for a session, which `/auth` brings about
-- and `/session/renew` demands.
pub mod Reserve
pub mod Renew
use callifornia.Commands.Laws.{IsRedis}
use callifornia.Commands.Rules.{On, Ensures-send}
use callifornia.Connector.Config.{Config}
use callifornia.Connector.Handlers.{validated, settle, auth, known_session, session_renew}
use callifornia.Connector.Message.{ValidationError, AuthRequest, AuthResponse, SessionRenewRequest}
use callifornia.Connector.Redis.{
  RedisError, SessionData, from_fault, command, query, write, session_key, nick_key,
  reserve_nickname, nick_owner_get, session_create, session_get, to_session_data,
}
use callifornia.ControlStore.Heartbeat.{non_empty}
use callifornia.Exec.{Result, ok, err, pure, raise}
use callifornia.Exec.Ensures.{
  Ensures, Ensures-bind, Ensures-Keeps, Ensures-guard, Ensures-attempt, Ensures-map_err,
  Ensures-or_raise, Ensures-pure, Ensures-weaken, Ensures-const, Ensures-carry, IfOk,
}
use callifornia.Exec.Keeps.{Keeps, Keeps-total, keeps_rules}
use callifornia.Map.{lookup}
use callifornia.Prelude.{
  ℕ, String, Option, none, some, true, false, is_text, ◌==◌, eq_iff, ◌≡◌, refl, ◌∙◌, sym, ap, arith,
  Bool-cases, inl, inr,
}
use callifornia.Services.{Services}
use callifornia.Texts.{trim}

module _ ⦃v : Services⦄ where
  -- The nickname is reserved for the session, and the session has it.
  pub record HasLease (nickname session_id : String) (d : v.Db) : Type 0 where
    pub reserved : v.get (nick_key nickname) d ≡ some session_id
    pub named : lookup "nickname" (v.hgetall (session_key session_id) d) ≡ some nickname

  -- The data of the server are these.
  abbrev pub Are : v.Db → v.Db → Type 0
  Are known d = d ≡ known

module _ ⦃v : Services⦄ {P : v.Ext → Type 0} where
  pub Keeps-validated :
      (config : Config) (r : Result ValidationError (Unit {0})) (message : String)
      → Keeps P (validated config r message)
  unfolding validated
  Keeps-validated config (ok _) message = search keeps_rules
  Keeps-validated config (err e) message = search keeps_rules

module _ ⦃v : Services⦄ (laws : IsRedis) (known : v.Db) where
  pub query-Ensures :
      {A : Type 0} (f : v.Db → A)
      → Ensures (On laws (Are known)) (query f) (λ a. On laws (λ d. Are known d × (a ≡ f known)))
  unfolding query
  query-Ensures f =
      Ensures-send laws from_fault (Are known) (λ a d. Are known d × (a ≡ f known)) _
        λ d h. (h, ap f h)
