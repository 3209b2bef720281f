-- ===== src/Text/Join.antt =====
-- `split` and `join` undo one another.
use Prim.Native.Char.{Char, code}
use Prim.Native.String.{◌++◌ as append}
use text.Mathlib.TextEquality.{Char-path}
use text.Mathlib.TextLemmas.{nil-append, cons-append}
use text.Mathlib.TextLemmas as Text
use deploy_hub.Prelude.{
  ℕ, String, true, false, List, [], ◌∷◌, ◌≡◌, refl, sym, ap, ◌∙◌, arith, Bool-cases, inl, inr,
}
use deploy_hub.Text.{same_code, has_code, split, join, push_code}

same_code-eq : (a b : ℕ) → same_code a b ≡ true → a ≡ b
same_code-eq a b h = ground (arith, h)

-- There is always a first part.
split-cons : (k : ℕ) (s : String) → (x : String) × (xs : List String) × (split k s ≡ x ∷ xs)
unfolding split
split-cons k String.[] = (String.[], [], refl)
split-cons k (String.◌∷◌ c s) = elim (Bool-cases (same_code (code c) k)) [
  | inl e ↦ (String.[], split k s, rw e refl)
  | inr e ↦
      let (x, xs, h) = split-cons k s in (append (String.◌∷◌ c String.[]) x, xs, rw e (rw h refl))
]

join-push_code :
    (sep t x : String) (xs : List String)
    → join sep (push_code t (x ∷ xs)) ≡ append t (join sep (x ∷ xs))
unfolding join
join-push_code sep t x [] = refl
join-push_code sep t x (y ∷ ys) = Text.append_assoc t x (append sep (join sep (y ∷ ys)))

join_one : (sep s : String) → join sep (s ∷ []) ≡ s
unfolding join
join_one sep s = refl

module _ (k : ℕ) (c : Char) (m : same_code (code c) k ≡ true) where
  -- The parts around the first separator.
  pub split-append :
      (s t : String) → has_code k s ≡ false → split k (append s (String.◌∷◌ c t)) ≡ s ∷ split k t
  unfolding split has_code
  split-append String.[] t h = rw nil-append (rw m refl)
  split-append (String.◌∷◌ d s) t h =
      let f : same_code (code d) k ≡ false = ground (arith, h) in
      let g : has_code k s ≡ false = ground (arith, h) in
      rw cons-append (
        rw f (
          ap (push_code (String.◌∷◌ d String.[])) (split-append s t g)
          ∙ ap (λ x. x ∷ split k t) (cons-append d String.[] s ∙ ap (String.◌∷◌ d) (nil-append s))))

  join_empty :
      (x : String) (xs : List String)
      → join (String.◌∷◌ c String.[]) (String.[] ∷ x ∷ xs)
        ≡ String.◌∷◌ c (join (String.◌∷◌ c String.[]) (x ∷ xs))
  unfolding join
  join_empty x xs =
      nil-append (append (String.◌∷◌ c String.[]) (join (String.◌∷◌ c String.[]) (x ∷ xs)))
      ∙ (cons-append c String.[] (join (String.◌∷◌ c String.[]) (x ∷ xs))
          ∙ ap (String.◌∷◌ c) (nil-append (join (String.◌∷◌ c String.[]) (x ∷ xs))))

  abbrev sep : String
  sep = String.◌∷◌ c String.[]

  same : (d : Char) → same_code (code d) k ≡ true → c ≡ d
  same d e = Char-path c d (same_code-eq (code c) k m ∙ sym (same_code-eq (code d) k e))

  pub join-split : (s : String) → join (String.◌∷◌ c String.[]) (split k s) ≡ s
  unfolding split
  join-split String.[] = join_one sep String.[]
  join-split (String.◌∷◌ d s) =
      let (x, xs, h) = split-cons k s in
      elim (Bool-cases (same_code (code d) k)) [
        | inl e ↦ rw e (
            ap (λ l. join sep (String.[] ∷ l)) h
            ∙ (join_empty x xs
                ∙ (ap (String.◌∷◌ c) (ap (join sep) (sym h) ∙ join-split s)
                    ∙ ap (λ b. String.◌∷◌ b s) (same d e))))
        | inr e ↦ rw e (
            ap (λ l. join sep (push_code (String.◌∷◌ d String.[]) l)) h
            ∙ (join-push_code sep (String.◌∷◌ d String.[]) x xs
                ∙ (ap (append (String.◌∷◌ d String.[])) (ap (join sep) (sym h) ∙ join-split s)
                    ∙ (cons-append d String.[] s ∙ ap (String.◌∷◌ d) (nil-append s)))))
      ]
