-- ===== src/Api/Auth/Vouched.antt =====
-- Whom the API takes a caller for, the cache of tokens included.
use deploy_hub.Prelude.{
  ℕ, String, ◌==◌, eq_iff, ◌≡◌, refl, sym, ap, ◌∙◌, subst, inl, inr, true, Option, none, some,
  arith, Bool-cases, List,
}
use deploy_hub.Action.{Result, ok, raised, resume}
use deploy_hub.Dict.{Dict, lookup, assign}
use deploy_hub.Dict.Laws.{lookup-assign}
use deploy_hub.Api.World.{World, Account}
use deploy_hub.Api.Access.{User, get_or_create_user}
use deploy_hub.Api.Auth.{
  UserInfo, GhUser, GhEmail, Reply, replied, request_error, Answers, is_ok, with_list, with_emails,
  with_user, verified, State, login, remember, identify, with_token, get_current_user,
}

-- GitHub answered 200 with this user.
abbrev pub Confirms : Reply GhUser → String → Type 0
Confirms r id = (g : GhUser) × (r ≡ replied 200 (ok g)) × (g.id ≡ id)

abbrev Confirmed : Reply GhUser → Result UserInfo → Type 0
Confirmed r (ok i) = Confirms r i.id
Confirmed r (raised e) = Unit

is_ok-200 : (s : ℕ) → is_ok s ≡ true → s ≡ 200
unfolding is_ok
is_ok-200 s h = ground (arith, h)

emails-Confirmed :
    (r : Reply GhUser) (g : GhUser) (es : Reply (List GhEmail))
    → r ≡ replied 200 (ok g)
    → Confirmed r (with_emails g es)
unfolding with_emails with_list
emails-Confirmed r g request_error h = tt
emails-Confirmed r g (replied s (ok es)) h = elim (Bool-cases (is_ok s)) [
  | inl e ↦ rw e (g, h, refl)
  | inr e ↦ rw e (g, h, refl)
]
emails-Confirmed r g (replied s (raised e')) h = elim (Bool-cases (is_ok s)) [
  | inl e ↦ rw e tt
  | inr e ↦ rw e (g, h, refl)
]

verified-Confirmed : (r : Reply GhUser) (es : Reply (List GhEmail)) → Confirmed r (verified r es)
unfolding verified with_user
verified-Confirmed request_error es = tt
verified-Confirmed (replied s (ok g)) es = elim (Bool-cases (is_ok s)) [
  | inl e ↦
      rw e (emails-Confirmed (replied s (ok g)) g es (ap (λ n. replied n (ok g)) (is_ok-200 s e)))
  | inr e ↦ rw e tt
]
verified-Confirmed (replied s (raised x)) es = elim (Bool-cases (is_ok s)) [
  | inl e ↦ rw e tt
  | inr e ↦ rw e tt
]

or_else : UserInfo → Option UserInfo → UserInfo
or_else i none = i
or_else i (some j) = j

some_injective : (i j : UserInfo) → some i ≡ some j → i ≡ j
unfolding or_else
some_injective i j h = ap (or_else i) h

-- `belongs` is whom a token belongs to.
module _ (sha : String → String) (belongs : String → String → Type 0) where
  -- Every entry of the cache is of a token with that hash, and of the user it belongs to.
  abbrev pub IsSound : Dict UserInfo → Type 0
  IsSound c =
      (key : String) (i : UserInfo)
      → lookup key c ≡ some i
      → (t : String) × (sha t ≡ key) × belongs t i.id

  -- Whoever is let in is the user of a token with the hash of this one.
  abbrev pub Vouched : String → Result User × State → Type 0
  Vouched token (ok u, (c, w)) =
      IsSound c × ((t : String) × (sha t ≡ sha token) × belongs t u.user_id)
  Vouched token (raised e, (c, w)) = IsSound c

  assign-IsSound :
      (token : String) (i : UserInfo) (c : Dict UserInfo)
      → belongs token i.id
      → IsSound c
      → IsSound (assign (sha token) i c)
  assign-IsSound token i c b s key j h = elim (Bool-cases (sha token == key)) [
    | inl e ↦
        let p : some i ≡ some j = sym (lookup-assign key (sha token) i c ∙ rw e refl) ∙ h in
        (
          token,
          (eq_iff (sha token) key).0 e,
          subst (λ x. belongs token x.id) (some_injective i j p) b,
        )
    | inr e ↦ s key j (sym (lookup-assign key (sha token) i c ∙ rw e refl) ∙ h)
  ]

  abbrev Holder : String → UserInfo → Type 0
  Holder token i = (t : String) × (sha t ≡ sha token) × belongs t i.id

  account-Vouched :
      (token : String) (i : UserInfo) (c : Dict UserInfo) (r : Result Account) (w : World)
      → IsSound c
      → Holder token i
      → Vouched token
          (resume {S = State} r (λ x s. (ok (record { user_id = i.id; role = x.role }), s)) (c, w))
  account-Vouched token i c (ok x) w s h = (s, h)
  account-Vouched token i c (raised e) w s h = s

  login-Vouched :
      (token : String) (a : Answers) (i : UserInfo) (c : Dict UserInfo) (w : World)
      → IsSound c
      → Holder token i
      → Vouched token (login a i (c, w))
  unfolding login
  login-Vouched token a i c w s h =
      let p = get_or_create_user a.connect a.insert i.id i.email w in
      account-Vouched token i c p.0 p.1 s h

  -- GitHub's answer, remembered, and the account.
  remembered-Vouched :
      (token : String) (a : Answers) (c : Dict UserInfo) (w : World) (r : Result UserInfo)
      → IsSound c
      → ((id : String) → Confirms a.user id → belongs token id)
      → Confirmed a.user r
      → Vouched token
          (resume (remember (sha token) r (c, w)).0 (login a) (remember (sha token) r (c, w)).1)
  unfolding remember
  remembered-Vouched token a c w (ok i) s truth h =
      let b = truth i.id h in
      login-Vouched token a i (assign (sha token) i c) w (assign-IsSound token i c b s)
        (token, refl, b)
  remembered-Vouched token a c w (raised e) s truth h = s

  found-Vouched :
      (token : String) (a : Answers) (c : Dict UserInfo) (w : World) (o : Option UserInfo)
      → IsSound c
      → ((id : String) → Confirms a.user id → belongs token id)
      → lookup (sha token) c ≡ o
      → Vouched token
          (resume (identify (sha token) a o (c, w)).0 (login a) (identify (sha token) a o (c, w)).1)
  unfolding identify
  found-Vouched token a c w (some i) s truth h = login-Vouched token a i c w s (s (sha token) i h)
  found-Vouched token a c w none s truth h =
      remembered-Vouched token a c w (verified a.user a.emails) s truth
        (verified-Confirmed a.user a.emails)

  -- With GitHub sign-in on, if GitHub tells whom a token belongs to, the cache is sound and eviction
  -- only removes entries, then the cache stays sound, and whoever is let in with a token is the user
  -- that a token with the same hash belongs to.
  pub get_current_user-Vouched :
      (evict : Dict UserInfo → Dict UserInfo) (token : String) (a : Answers) (c : Dict UserInfo)
      (w : World)
      → ((k : String) (d : Dict UserInfo) (i : UserInfo)
          → lookup k (evict d) ≡ some i
          → lookup k d ≡ some i)
      → ((id : String) → Confirms a.user id → belongs token id)
      → IsSound c
      → Vouched token (get_current_user sha evict true (some token) a (c, w))
  unfolding get_current_user with_token
  get_current_user-Vouched evict token a c w removes truth s =
      found-Vouched token a (evict c) w (lookup (sha token) (evict c))
        (λ key i h. s key i (removes key c i h)) truth refl
