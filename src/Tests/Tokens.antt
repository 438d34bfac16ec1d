-- ===== src/Tests/Tokens.antt =====
-- In the tests a token is decoded to the claims that it was encoded from.
use callifornia.Message.{Claims}
use callifornia.Prelude.{
  String, leb, Option, none, some, true, false, ◌&&◌, ◌||◌, not, ◌==◌, eq_iff, get_or, ◌≡◌, refl,
  sym, ap, ◌∙◌, arith, Bool-cases, inl, inr,
}
use callifornia.Connector.Tokens.{Decodes}
use callifornia.Tests.World.{toy, Ext, is_same, is_there, token_of, claims_create, claims_join}

room_same :
    (r s : Option String)
    → (get_or r "" == get_or s "") ≡ true
    → not (is_there r && not (is_there s) || not (is_there r) && is_there s) ≡ true
    → r ≡ s
room_same none none h k = refl
room_same (some a) (some b) h k = cc ((eq_iff a b).0 h)
room_same none (some b) h k = absurd cc
room_same (some a) none h k = absurd cc

same-eq : (a b : Claims) → is_same a b ≡ true → a ≡ b
same-eq a b h =
    let e1 : a.jti ≡ b.jti = ground (arith, h, eq_iff a.jti b.jti) in
    let e2 : a.session_id ≡ b.session_id = ground (arith, h, eq_iff a.session_id b.session_id) in
    let e3 : a.nickname ≡ b.nickname = ground (arith, h, eq_iff a.nickname b.nickname) in
    let e4 : a.signaling_instance_id ≡ b.signaling_instance_id =
      ground (arith, h, eq_iff a.signaling_instance_id b.signaling_instance_id) in
    let e5 : a.intent ≡ b.intent = ground (arith, h, eq_iff a.intent b.intent) in
    let e6 : a.room_id ≡ b.room_id =
      room_same a.room_id b.room_id (ground (arith, h)) (ground (arith, h)) in
    let e7 : a.iat ≡ b.iat = ground (arith, h) in let e8 : a.exp ≡ b.exp = ground (arith, h) in cc

some-eq : (a b : String) → ◌≡◌ {A = Option String} (some a) (some b) → a ≡ b
some-eq a b e = cc

first : (claims : Claims) → is_same claims claims_create ≡ true → token_of claims ≡ some "t1"
first claims e = rw e refl

second :
    (claims : Claims)
    → is_same claims claims_create ≡ false
    → is_same claims claims_join ≡ true
    → token_of claims ≡ some "t2"
second claims e k = rw (e, k) refl

no_token :
    (claims : Claims)
    → is_same claims claims_create ≡ false
    → is_same claims claims_join ≡ false
    → token_of claims ≡ none
no_token claims e k = rw (e, k) refl

pub toy-Decodes : (y : Ext) → Decodes y
unfolding Decodes
toy-Decodes y secret claims x token h early = elim (Bool-cases (is_same claims claims_create)) [
  | inl e ↦
      let same : claims ≡ claims_create = same-eq claims claims_create e in
      let in_time : leb y.clock 220 ≡ true = ground (arith, early, ap (λ c. c.exp) same) in
      rw (in_time, some-eq token "t1" (sym h ∙ first claims e)) (ap some (sym same))
  | inr e ↦ elim (Bool-cases (is_same claims claims_join)) [
    | inl k ↦
        let same : claims ≡ claims_join = same-eq claims claims_join k in
        let in_time : leb y.clock 220 ≡ true = ground (arith, early, ap (λ c. c.exp) same) in
        rw (in_time, some-eq token "t2" (sym h ∙ second claims e k)) (ap some (sym same))
    | inr k ↦ absurd (cc (h, no_token claims e k))
  ]
]
