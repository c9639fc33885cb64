-- ===== src/Reference/Agree.antt =====
-- When a call of crates/krcm-core and the call of krcm/core.py it stands for come to the same.
use mathlib.Core.Path.{subst}
use krcm_spn.Base
use krcm_spn.Base.{
  Bool, KrcmError, Outcome, ap, authentication, diverged, err, fail_if, false, format,
  invalid_parameter, invalid_password, ok, panic, refl, sym, true, ◌||◌, ◌≡◌,
}
use krcm_spn.Reference.{
  Attempt, Exception, bad_format, bad_value, done, not_authentic, raise_if, raised, unfinished,
  ◌>>=◌, ◌>>◌,
}

-- The exception that stands for an error.
abbrev pub Reports : KrcmError → Exception → Type 0
Reports invalid_parameter bad_value = Unit
Reports invalid_password bad_value = Unit
Reports format bad_format = Unit
Reports authentication not_authentic = Unit
Reports _ _ = ⊥

-- Both give the same value, both report the same error, or neither ends within its draws. A panic
-- agrees with nothing.
abbrev pub Agree : {V : Type 0} → Outcome V → Attempt V → Type 0
Agree diverged unfinished = Unit
Agree (err e) (raised x) = Reports e x
Agree (ok v) (done w) = v ≡ w
Agree _ _ = ⊥

-- Calls that agree, each followed by calls that agree on its value.
pub >>=-Agree :
    {V W : Type 0} (m : Outcome V) (a : Attempt V) (f : V → Outcome W) (g : V → Attempt W)
    → Agree m a
    → ((v : V) → m ≡ ok v → Agree (f v) (g v))
    → Agree (Base.◌>>=◌ m f) (a >>= g)
>>=-Agree diverged unfinished f g h k = tt
>>=-Agree (err e) (raised x) f g h k = h
>>=-Agree (ok v) (done w) f g h k = subst (λ t. Agree (f v) (g t)) h (k v refl)
>>=-Agree panic a f g h k = absurd h
>>=-Agree diverged (raised x) f g h k = absurd h
>>=-Agree diverged (done w) f g h k = absurd h
>>=-Agree (err e) unfinished f g h k = absurd h
>>=-Agree (err e) (done w) f g h k = absurd h
>>=-Agree (ok v) unfinished f g h k = absurd h
>>=-Agree (ok v) (raised x) f g h k = absurd h

pub guard-Agree :
    {W : Type 0} (test : Bool) (e : KrcmError) (x : Exception) (m : Outcome W) (a : Attempt W)
    → Reports e x
    → (test ≡ false → Agree m a)
    → Agree (Base.◌>>◌ (fail_if test e) m) (raise_if test x >> a)
guard-Agree true e x m a h k = h
guard-Agree false e x m a h k = k refl

-- One guard against two in a row.
pub guards-Agree :
    {W : Type 0} (one two two' : Bool) (e : KrcmError) (x : Exception) (m : Outcome W)
    (a : Attempt W)
    → Reports e x
    → two' ≡ two
    → ((one || two) ≡ false → Agree m a)
    → Agree (Base.◌>>◌ (fail_if (one || two) e) m) (raise_if one x >> (raise_if two' x >> a))
guards-Agree true two two' e x m a h same k = h
guards-Agree false true two' e x m a h same k = rw same h
guards-Agree false false two' e x m a h same k = rw same (k refl)

-- Where one of two calls that agree gives a value, so does the other.
pub Agree-done :
    {V : Type 0} {m : Outcome V} (a : Attempt V) {v : V} → m ≡ ok v → Agree m a → a ≡ done v
Agree-done {m} a {v} e h = done_of a (subst (λ (t : Outcome _). Agree t a) e h)
  where
    done_of : (a : Attempt _) → Agree (ok v) a → a ≡ done v
    done_of unfinished h = absurd h
    done_of (raised x) h = absurd h
    done_of (done w) h = ap done (sym h)
