-- ===== src/Prelude/Results.antt =====
-- Fallible code: a value or the error that was thrown.
use mathlib.Core.Path.{◌≡◌, refl, sym, subst}
use mathlib.Core.Bool.{Bool, true, false}
use offline_bearer_protocol.Prelude.Tests.{if◌then◌else◌}
use mathlib.Core.Logic.{◌⊎◌, inl, inr}
use mathlib.Core.Option.{Option, none, some}

pub data Result (E A : Type 0) : Type 0 where
  ok : A → Result E A
  err : E → Result E A

-- `if (!test) throw e`, and `require!(test, e)`.
abbrev pub guard : {E : Type 0} → Bool → E → Result E (Unit {0})
guard false thrown = err thrown
guard true thrown = ok tt

-- `if (test) throw e`.
abbrev pub throw_if : {E : Type 0} → Bool → E → Result E (Unit {0})
throw_if true thrown = err thrown
throw_if false thrown = ok tt

infixl 5 ◌>>=◌
abbrev pub ◌>>=◌ : {E A B : Type 0} → Result E A → (A → Result E B) → Result E B
err thrown >>= next = err thrown
ok value >>= next = next value

infixl 5 ◌>>◌
abbrev pub ◌>>◌ : {E B : Type 0} → Result E (Unit {0}) → Result E B → Result E B
first >> second = first >>= λ done. second

pub >>=-eq-ok :
    {E A B : Type 0} (r : Result E A) (next : A → Result E B) {b : B}
    → (r >>= next) ≡ ok b
    → (value : A) × (r ≡ ok value) × (next value ≡ ok b)
>>=-eq-ok (err thrown) next e = cc
>>=-eq-ok (ok value) next e = (value, refl, e)

pub guard-eq-ok :
    {E B : Type 0} (t : Bool) (e : E) (m : Result E B) {b : B}
    → (guard t e >> m) ≡ ok b
    → (t ≡ true) × (m ≡ ok b)
guard-eq-ok true e m h = (refl, h)
guard-eq-ok false e m h = cc

pub throw_if-eq-ok :
    {E B : Type 0} (t : Bool) (e : E) (m : Result E B) {b : B}
    → (throw_if t e >> m) ≡ ok b
    → (t ≡ false) × (m ≡ ok b)
throw_if-eq-ok false e m h = (refl, h)
throw_if-eq-ok true e m h = cc

pub Result-cases :
    {E A : Type 0} (r : Result E A) → ((a : A) × (r ≡ ok a)) ⊎ ((e : E) × (r ≡ err e))
Result-cases (ok a) = inl (a, refl)
Result-cases (err e) = inr (e, refl)

pub ok-injective : {E A : Type 0} {a b : A} → ◌≡◌ {A = Result E A} (ok a) (ok b) → a ≡ b
ok-injective e = cc

-- `option.ok_or(e)?`
abbrev pub some_or : {E A : Type 0} → Option A → E → Result E A
some_or none thrown = err thrown
some_or (some value) thrown = ok value

-- What a computation guarantees when it returns, by its steps.
abbrev pub Ensures : {E A : Type 0} → Result E A → (A → Type 0) → Type 0
Ensures {A = A} r P = (value : A) → r ≡ ok value → P value

pub Ensures-ok :
    {E A : Type 0} (P : A → Type 0) {value : A}
    → P value
    → Ensures (let r : Result E A = ok value in r) P
Ensures-ok P h value e = subst P (ok-injective e) h

pub Ensures-bind :
    {E A B : Type 0} (r : Result E A) (next : A → Result E B) (P : B → Type 0)
    → ((value : A) → r ≡ ok value → Ensures (next value) P)
    → Ensures (r >>= next) P
Ensures-bind (ok value) next P h result e = h value refl result e
Ensures-bind (err thrown) next P h result e = cc

pub Ensures-guard :
    {E B : Type 0} (t : Bool) (thrown : E) (r : Result E B) (P : B → Type 0)
    → (t ≡ true → Ensures r P)
    → Ensures (guard t thrown >> r) P
Ensures-guard true thrown r P h result e = h refl result e
Ensures-guard false thrown r P h result e = cc

-- A test at the end.
pub guard-eq_tt : {E : Type 0} (t : Bool) (e : E) {done : Unit {0}} → guard t e ≡ ok done → t ≡ true
guard-eq_tt true e h = refl
guard-eq_tt false e h = cc

pub Ensures-throw_if :
    {E B : Type 0} (t : Bool) (thrown : E) (r : Result E B) (P : B → Type 0)
    → (t ≡ false → Ensures r P)
    → Ensures (throw_if t thrown >> r) P
Ensures-throw_if true thrown r P h result e = cc
Ensures-throw_if false thrown r P h result e = h refl result e

pub some_or-eq-ok : {E A : Type 0} (o : Option A) (e : E) {a : A} → some_or o e ≡ ok a → o ≡ some a
some_or-eq-ok none e h = cc
some_or-eq-ok (some x) e h = cc

pub if-eq-ok :
    {E A : Type 0} (t : Bool) (a : A) (e : E) {b : A}
    → (if t then ok a else err e) ≡ ok b
    → (t ≡ true) × (a ≡ b)
if-eq-ok true a e h = (refl, ok-injective h)
if-eq-ok false a e h = cc

pub if-eq-some :
    {A : Type 0} (t : Bool) (a : A) {b : A}
    → (if t then some a else none) ≡ some b
    → (t ≡ true) × (a ≡ b)
if-eq-some true a h = (refl, cc)
if-eq-some false a h = cc

pub Ensures-if :
    {E B : Type 0} (t : Bool) (r s : Result E B) (P : B → Type 0)
    → (t ≡ true → Ensures r P)
    → (t ≡ false → Ensures s P)
    → Ensures (if t then r else s) P
Ensures-if true r s P h k result e = h refl result e
Ensures-if false r s P h k result e = k refl result e

-- A computation that succeeds goes on.
pub bind_ok :
    {E A B : Type 0} (r : Result E A) (next : A → Result E B) {a : A} {x : Result E B}
    → r ≡ ok a
    → next a ≡ x
    → (r >>= next) ≡ x
bind_ok r next {x = x} e f = subst (λ o. (o >>= next) ≡ x) (sym e) f

pub guard_ok :
    {E B : Type 0} (t : Bool) (e : E) (m : Result E B) {x : Result E B}
    → t ≡ true
    → m ≡ x
    → (guard t e >> m) ≡ x
guard_ok true e m h f = f
guard_ok false e m h f = cc

pub some_or_ok : {E A : Type 0} (o : Option A) (e : E) {a : A} → o ≡ some a → some_or o e ≡ ok a
some_or_ok o e h = rw h
