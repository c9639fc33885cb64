-- ===== src/Base/Settles.antt =====
-- Calls that end in a value or in an error, neither in a panic nor out of fuel, and properties of what
-- a call returns.
use Prim.Native.Nat.{ℕ, ◌≤◌}
use mathlib.Core.Path.{◌≡◌, refl, subst}
use mathlib.Core.Logic.{◌≢◌}
use mathlib.Core.Bool.{Bool, true, false}
use mathlib.Core.List.{List}
use mathlib.Core.Option.{Option, none, some}
use krcm_spn.Base.Lists.{length}
use krcm_spn.Base.Results.{
  Outcome, Outcome-ok-injective, KrcmError, ok, err, panic, diverged, ◌>>=◌, ◌>>◌, fail_if, ok_or,
  slice, slice_in_range,
}

-- A value or an error.
abbrev pub Settled {ℓ} : {V : Type ℓ} → Outcome V → Type 0
Settled panic = ⊥
Settled diverged = ⊥
Settled (err e) = Unit
Settled (ok v) = Unit

pub >>=-Settled {ℓ κ} :
    {V : Type ℓ} {W : Type κ} (m : Outcome V) (next : V → Outcome W)
    → Settled m
    → ((v : V) → Settled (next v))
    → Settled (m >>= next)
>>=-Settled panic next h k = absurd h
>>=-Settled diverged next h k = absurd h
>>=-Settled (err e) next h k = tt
>>=-Settled (ok v) next h k = k v

pub fail_if-Settled {ℓ} :
    {W : Type ℓ} (test : Bool) (e : KrcmError) (next : Outcome W)
    → (test ≡ false → Settled next)
    → Settled (fail_if test e >> next)
fail_if-Settled true e next k = tt
fail_if-Settled false e next k = k refl

pub Settled-returns {ℓ} : {V : Type ℓ} (r : Outcome V) → Settled r → (r ≢ panic) × (r ≢ diverged)
Settled-returns panic h = absurd h
Settled-returns diverged h = absurd h
Settled-returns (err e) h = (λ q. cc, λ q. cc)
Settled-returns (ok v) h = (λ q. cc, λ q. cc)

pub ok_or-Settled {ℓ} : {V : Type ℓ} (o : Option V) (e : KrcmError) → Settled (ok_or o e)
ok_or-Settled none e = tt
ok_or-Settled (some v) e = tt

pub ok-Settled {ℓ} : {V : Type ℓ} (r : Outcome V) {v : V} → r ≡ ok v → Settled r
ok-Settled r e = rw e tt

-- What follows a slice within the bounds.
pub slice-Settled {ℓ} :
    {W : Type ℓ} (xs : List ℕ) (start end : ℕ) (next : List ℕ → Outcome W)
    → start ≤ end
    → end ≤ length xs
    → ((ys : List ℕ) → slice xs start end ≡ ok ys → Settled (next ys))
    → Settled (slice xs start end >>= next)
slice-Settled xs start end next h k settled =
    let cut = slice_in_range xs start end h k in rw cut (settled _ cut)

-- As `>>=-Settled`, with the value that the first call gave.
pub >>=-Settled_at {ℓ κ} :
    {V : Type ℓ} {W : Type κ} (m : Outcome V) (next : V → Outcome W)
    → Settled m
    → ((v : V) → m ≡ ok v → Settled (next v))
    → Settled (m >>= next)
>>=-Settled_at panic next h k = absurd h
>>=-Settled_at diverged next h k = absurd h
>>=-Settled_at (err e) next h k = tt
>>=-Settled_at (ok v) next h k = k v refl

-- A value with a property, or an error.
abbrev pub SettledWith {ℓ} : {V : Type ℓ} → (V → Type 0) → Outcome V → Type 0
SettledWith P panic = ⊥
SettledWith P diverged = ⊥
SettledWith P (err e) = Unit
SettledWith P (ok v) = P v

pub SettledWith-ok {ℓ} :
    {V : Type ℓ} (P : V → Type 0) (r : Outcome V) {v : V} → SettledWith P r → r ≡ ok v → P v
SettledWith-ok P panic h e = absurd h
SettledWith-ok P diverged h e = absurd h
SettledWith-ok P (err why) h e = cc
SettledWith-ok P (ok w) h e = subst P (Outcome-ok-injective e) h

pub SettledWith-Settled {ℓ} :
    {V : Type ℓ} (P : V → Type 0) (r : Outcome V) → SettledWith P r → Settled r
SettledWith-Settled P panic h = absurd h
SettledWith-Settled P diverged h = absurd h
SettledWith-Settled P (err why) h = tt
SettledWith-Settled P (ok w) h = tt

module _ {ℓ} {W : Type ℓ} (P : W → Type 0) where
  pub >>=-SettledWith {κ} :
      {V : Type κ} (m : Outcome V) (next : V → Outcome W)
      → Settled m
      → ((v : V) → SettledWith P (next v))
      → SettledWith P (m >>= next)
  >>=-SettledWith panic next h k = absurd h
  >>=-SettledWith diverged next h k = absurd h
  >>=-SettledWith (err e) next h k = tt
  >>=-SettledWith (ok v) next h k = k v

  pub fail_if-SettledWith :
      (test : Bool) (e : KrcmError) (next : Outcome W)
      → (test ≡ false → SettledWith P next)
      → SettledWith P (fail_if test e >> next)
  fail_if-SettledWith true e next k = tt
  fail_if-SettledWith false e next k = k refl

  pub slice-SettledWith :
      (xs : List ℕ) (start end : ℕ) (next : List ℕ → Outcome W)
      → start ≤ end
      → end ≤ length xs
      → ((ys : List ℕ) → slice xs start end ≡ ok ys → SettledWith P (next ys))
      → SettledWith P (slice xs start end >>= next)
  slice-SettledWith xs start end next h k settled =
      let cut = slice_in_range xs start end h k in rw cut (settled _ cut)

-- A property of the value of a call that may as well fail in any way.
abbrev pub Gives {ℓ} : {V : Type ℓ} → (V → Type 0) → Outcome V → Type 0
Gives P panic = Unit
Gives P diverged = Unit
Gives P (err e) = Unit
Gives P (ok v) = P v

pub Gives-ok {ℓ} :
    {V : Type ℓ} (P : V → Type 0) (r : Outcome V) {v : V} → Gives P r → r ≡ ok v → P v
Gives-ok P panic h e = cc
Gives-ok P diverged h e = cc
Gives-ok P (err why) h e = cc
Gives-ok P (ok w) h e = subst P (Outcome-ok-injective e) h

pub >>=-Gives {ℓ κ} :
    {V : Type ℓ} {W : Type κ} (P : W → Type 0) (m : Outcome V) (next : V → Outcome W)
    → ((v : V) → m ≡ ok v → Gives P (next v))
    → Gives P (m >>= next)
>>=-Gives P panic next k = tt
>>=-Gives P diverged next k = tt
>>=-Gives P (err e) next k = tt
>>=-Gives P (ok v) next k = k v refl

pub fail_if-Gives {ℓ} :
    {W : Type ℓ} (P : W → Type 0) (test : Bool) (e : KrcmError) (next : Outcome W)
    → Gives P next
    → Gives P (fail_if test e >> next)
fail_if-Gives P true e next k = tt
fail_if-Gives P false e next k = k
