-- ===== src/Governor/Queue.antt =====
-- The queue hands out the least entry and keeps the others.
use mathlib.Core.List.{Perm, Permᴰ}
use mathlib.Core.List.Perm
use mathlib.Core.Logic.{∥∥₁_elim}
use mathlib.Core.HLevel.{×_prop, ¬_prop}
use mathlib.Core.Bool.{Bool-set}
use r60v_home_assistant.Base.{
  ℕ, ◌≡◌, ◌≢◌, refl, sym, subst, inl, inr, true, false, Option, none, some, List, [], ◌∷◌, ◌++◌,
  arith, Bool-cases, All,
}
use r60v_home_assistant.Governor.{Job, precedes, least, take_least}

module _ {P : Job → Type 0} (prop : (j : Job) → IsProp (P j)) where
  All-prop : (js : List Job) → IsProp (All P js)
  All-prop [] = hlevel
  All-prop (j ∷ js) = ×_prop (prop j) (All-prop js)

  All-permᴰ : {js ks : List Job} → Permᴰ js ks → All P js → All P ks
  All-permᴰ Permᴰ.nil h = h
  All-permᴰ (Permᴰ.cons e p) h = (subst P e h.0, All-permᴰ p h.1)
  All-permᴰ (Permᴰ.swap e e') h = (subst P e' h.1.0, (subst P e h.0, h.1.1))
  All-permᴰ (Permᴰ.trans p q) h = All-permᴰ q (All-permᴰ p h)

  pub All-perm : {js ks : List Job} → Perm js ks → All P js → All P ks
  All-perm {ks = ks} p h = ∥∥₁_elim p (All-prop ks) (λ q. All-permᴰ q h)

-- All numbers differ from the given one, and from one another.
abbrev pub Fresh : ℕ → List Job → Type 0
Fresh n = All (λ j. j.seq ≢ n)

abbrev pub Numbered : List Job → Type 0
Numbered [] = Unit {0}
Numbered (j ∷ js) = Fresh j.seq js × Numbered js

abbrev pub First : Job → List Job → Type 0
First j = All (λ k. precedes j k ≡ true)

First-prop : (j k : Job) → IsProp (precedes j k ≡ true)
First-prop j k = Bool-set _ _

pub Fresh-prop : (n : ℕ) (j : Job) → IsProp (j.seq ≢ n)
Fresh-prop n j = ¬_prop

precedes_trans : (i j k : Job) → precedes i j ≡ true → precedes j k ≡ true → precedes i k ≡ true
unfolding precedes
precedes_trans i j k h h' = ground arith

precedes_total : (i j : Job) → j.seq ≢ i.seq → precedes j i ≡ false → precedes i j ≡ true
unfolding precedes
precedes_total i j h e = ground arith

First-trans : (i j : Job) (js : List Job) → precedes i j ≡ true → First j js → First i js
First-trans i j [] h f = tt
First-trans i j (k ∷ js) h f = (precedes_trans i j k h f.0, First-trans i j js h f.1)

-- What is taken off a queue, and what stays on it.
abbrev pub Takes : List Job → Option (Job × List Job) → Type 0
Takes js none = js ≡ []
Takes js (some (j, rest)) = Perm js (j ∷ rest) × First j rest

least-Takes :
    (x : Job) (js : List Job) (o : Option (Job × List Job))
    → Fresh x.seq js
    → Takes js o
    → Takes (x ∷ js) (some (least x js o))
unfolding least
least-Takes x js none f t = (rw t Perm.rfl, tt)
least-Takes x js (some (k, rest)) f (p, first) = elim (Bool-cases (precedes k x)) [
  | inl sooner ↦ rw sooner (Perm.trans (Perm.cons x p) (Perm.swap k x rest), (sooner, first))
  | inr later ↦
      let before : precedes x k ≡ true =
        precedes_total x k (All-perm (Fresh-prop x.seq) p f).0 later in
      rw later (
        Perm.rfl,
        All-perm (First-prop x) (Perm.symm p) (before, First-trans x k rest before first),
      )
]

-- From numbered entries the queue hands out one that precedes all the others, and keeps exactly
-- those; it has nothing to hand out only when it is empty.
pub take_least-Takes : (js : List Job) → Numbered js → Takes js (take_least js)
unfolding take_least
take_least-Takes [] n = refl
take_least-Takes (x ∷ js) n = least-Takes x js (take_least js) n.0 (take_least-Takes js n.1)

Numbered-prop : (js : List Job) → IsProp (Numbered js)
Numbered-prop [] = hlevel
Numbered-prop (j ∷ js) = ×_prop (All-prop (Fresh-prop j.seq) js) (Numbered-prop js)

≢_sym : {m n : ℕ} → m ≢ n → n ≢ m
≢_sym h e = h (sym e)

swapped : (a b : Job) (l : List Job) → Numbered (a ∷ b ∷ l) → Numbered (b ∷ a ∷ l)
swapped a b l n = ((≢_sym n.0.0, n.1.0), (n.0.1, n.1.1))

Numbered-permᴰ : {js ks : List Job} → Permᴰ js ks → Numbered js → Numbered ks
Numbered-permᴰ Permᴰ.nil h = h
Numbered-permᴰ {js = x ∷ xs} {ks = y ∷ ys} (Permᴰ.cons e p) h =
    (subst (λ z. Fresh z.seq ys) e (All-permᴰ (Fresh-prop x.seq) p h.0), Numbered-permᴰ p h.1)
Numbered-permᴰ (Permᴰ.swap {a = a} {b = b} {a' = a'} {l = l} e e') h =
    subst (λ z. Numbered (a' ∷ z ∷ l)) e (subst (λ z. Numbered (z ∷ a ∷ l)) e' (swapped a b l h))
Numbered-permᴰ (Permᴰ.trans p q) h = Numbered-permᴰ q (Numbered-permᴰ p h)

pub Numbered-perm : {js ks : List Job} → Perm js ks → Numbered js → Numbered ks
Numbered-perm {ks = ks} p h = ∥∥₁_elim p (Numbered-prop ks) (λ q. Numbered-permᴰ q h)

pub Numbered-append : (js ks : List Job) → Numbered (js ++ ks) → Numbered ks
Numbered-append [] ks n = n
Numbered-append (j ∷ js) ks n = Numbered-append js ks n.1
