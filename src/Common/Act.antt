-- ===== src/Common/Act.antt =====
-- Actions on the state of the world: they return a value and the new state, or fault.
use mathlib.Core.Option.{Option, none, some}
use mathlib.Core.Bool.{Bool, true, false}
use mathlib.Core.Path.{◌≡◌, refl, ap}
use my_leveldb.Common.Tests.{if◌then◌else◌}

abbrev pub Act : Type 0 → Type 0 → Type 0
Act S A = S → Option (A × S)

infixl 5 ◌>>=◌ ◌>>◌
abbrev pub ◌>>=◌ : {S A B : Type 0} → Act S A → (A → Act S B) → Act S B
◌>>=◌ m f s = elim (m s) [ none ↦ none | some (a, t) ↦ f a t ]

abbrev pub ◌>>◌ : {S B : Type 0} → Act S (Unit {0}) → Act S B → Act S B
m >> k = m >>= λ _. k

abbrev pub pure : {S A : Type 0} → A → Act S A
pure a s = some (a, s)

-- A value that may be missing: a pointer that is followed, a status that is built.
abbrev pub need : {S A : Type 0} → Option A → Act S A
need none s = none
need (some a) s = some (a, s)

-- A call of the system, which does not fault, and a question to it.
abbrev pub call : {S A : Type 0} → (S → A × S) → Act S A
call f s = some (f s)

abbrev pub ask : {S A : Type 0} → (S → A) → Act S A
ask f s = some (f s, s)

abbrev pub ensure : {S : Type 0} → Bool → Act S (Unit {0})
ensure true s = some (tt, s)
ensure false s = none

pub bind_some :
    {S A B : Type 0} (m : Act S A) (f : A → Act S B) (s : S) (a : A) (t : S)
    → m s ≡ some (a, t)
    → (m >>= f) s ≡ f a t
bind_some {S = S} {B = B} m f s a t e =
    ap (λ o. elim o as (λ _. Option (B × S)) [ none ↦ none | some (x, u) ↦ f x u ]) e

pub if_act :
    {S A : Type 0} (b : Bool) (m k : Act S A) (s : S) (r : Option (A × S))
    → (b ≡ true → m s ≡ r)
    → (b ≡ false → k s ≡ r)
    → (if b then m else k) s ≡ r
if_act true m k s r h i = h refl
if_act false m k s r h i = i refl
