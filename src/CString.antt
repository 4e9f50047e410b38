-- ===== src/CString.antt =====
-- Char arrays and the string functions of the C library that the program calls.
-- A char array is modelled by its bytes before the first NUL, or by all of them if it holds none.
use Prim.Native.Char.{code}
use Prim.Native.String.{String}
use rt_debug_lib.Base.{
  ℕ, zero, suc, ◌+◌, ◌-◌, ◌*◌, ◌/◌, ◌%◌, ◌≤◌, ◌<◌, ◌≡◌, refl, Bool, true, false, ◌&&◌, ◌↔◌, List,
  [], ◌∷◌, length, take, ltb, ◌==◌, if◌then◌else◌, arith, Result, ok, err, Fault,
}

abbrev pub CStr : Type 0
CStr = List ℕ

-- strcmp(a, b) == 0
unfoldable pub same : CStr → CStr → Bool
same [] [] = true
same [] (y ∷ ys) = false
same (x ∷ xs) [] = false
same (x ∷ xs) (y ∷ ys) = (x == y) && same xs ys

pub same_iff : (a b : CStr) → (same a b ≡ true) ↔ (a ≡ b)
unfolding same
same_iff [] [] = (λ _. refl, λ _. refl)
same_iff [] (y ∷ ys) = (λ h. cc, λ h. cc)
same_iff (x ∷ xs) [] = (λ h. cc, λ h. cc)
same_iff (x ∷ xs) (y ∷ ys) =
    (λ h. ground (arith, same_iff xs ys), λ h. ground (arith, same_iff xs ys))

pub same_refl : (a : CStr) → same a a ≡ true
same_refl a = (same_iff a a).1 refl

-- A C string read out of a char array of `size` bytes.
abbrev pub c_str : ℕ → CStr → Result CStr
c_str size s = if ltb (length s) size then ok s else err Fault.unterminated

-- strcpy(dst, src) into `size` bytes: the string and its NUL must fit.
abbrev pub strcpy : ℕ → CStr → Result CStr
strcpy size src = if ltb (length src) size then ok src else err Fault.out_of_bounds

-- strncpy(dst, src, n): at most n bytes, with no NUL where n of them are copied.
abbrev pub strncpy : ℕ → CStr → CStr
strncpy n src = take n src

-- The bytes of a text of the source.
abbrev pub codes : String → CStr
codes String.[] = []
codes (String.◌∷◌ c s) = code c ∷ codes s

digits : ℕ → ℕ → CStr → CStr
digits zero n acc = acc
digits (suc f) n acc =
    let acc' = (n % 10 + b'0') ∷ acc in
    let rest = digits f (n / 10) acc' in if ltb n 10 then acc' else rest

-- "%lu" of a uint64_t, which has 20 digits at most
unfoldable pub decimal : ℕ → CStr
unfolding digits
decimal n = digits 20 n []

-- "%ld" and "%d" of the bit pattern of a signed number of `2 * half` values
unfoldable pub signed_decimal : ℕ → ℕ → CStr
unfolding decimal
signed_decimal half n = if ltb n half then decimal n else b'-' ∷ decimal (2 * half - n)

digits-grow : (f n : ℕ) (acc : CStr) → length acc ≤ length (digits f n acc)
unfolding digits
digits-grow zero n acc = omega arith
digits-grow (suc f) n acc = ground (arith, digits-grow f (n / 10) ((n % 10 + b'0') ∷ acc))

-- A number has a digit.
pub decimal-pos : (n : ℕ) → 0 < length (decimal n)
unfolding decimal
decimal-pos n = ground (arith, digits-grow 19 (n / 10) ((n % 10 + b'0') ∷ []))
