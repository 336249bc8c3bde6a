-- ===== src/Text/Decimal.antt =====
-- `%d` and `atoi`: a number is read back from its decimal print.
use p.Prelude.{
  ℕ, zero, suc, ◌+◌, ◌-◌, ◌*◌, ◌/◌, ◌%◌, ◌^◌, ◌≤◌, ◌<◌, ◌≡◌, refl, ap, sym, ◌∙◌, [], ◌∷◌, ◌++◌,
  some, arith, ◌==◌, length, length-append, append_assoc, CString, Bool-cases, inl, inr,
  if◌then◌else◌,
}
use p.Text.{is_digit, is_white, skip_white, digits_value, signed_value, atoi, digits, decimal}
use p.Text.Tokens.{IsWord, IsToken}

abbrev pub AreDigits : CString → Type 0
AreDigits [] = Unit
AreDigits (c ∷ cs) = (b'0' ≤ c) × (c ≤ b'9') × AreDigits cs

AreDigits-append : (a b : CString) → AreDigits a → AreDigits b → AreDigits (a ++ b)
AreDigits-append [] b ha hb = hb
AreDigits-append (c ∷ a) b ha hb = (ha.0, ha.1, AreDigits-append a b ha.2 hb)

pub AreDigits-IsWord : (s : CString) → AreDigits s → IsWord s
AreDigits-IsWord [] h = tt
AreDigits-IsWord (c ∷ s) h = (omega arith, omega arith, AreDigits-IsWord s h.2)

digits-AreDigits : (k n : ℕ) → AreDigits (digits k n)
unfolding digits
digits-AreDigits zero n = tt
digits-AreDigits (suc k) n = elim (Bool-cases (n / 10 == 0)) [
  | inl e ↦ rw e (omega arith)
  | inr e ↦
      rw e (AreDigits-append (digits k (n / 10)) _ (digits-AreDigits k (n / 10)) (omega arith))
]

length-digits : (k n : ℕ) → length (digits k n) ≤ k
unfolding digits
length-digits zero n = omega arith
length-digits (suc k) n =
    ground (
      arith,
      length-digits k (n / 10),
      length-append {0} (digits k (n / 10)) ((b'0' + n % 10) ∷ []),
    )

-- A digit is read behind the value before it.
digits_value-cons :
    (d : ℕ) (rest : CString) (n : ℕ)
    → d < 10
    → digits_value ((b'0' + d) ∷ rest) n ≡ digits_value rest (n * 10 + d)
unfolding digits_value is_digit
digits_value-cons d rest n h = let e : b'0' + d - b'0' ≡ d = omega arith in ground (arith, e)

abbrev pow10 : ℕ → ℕ
pow10 zero = 1
pow10 (suc k) = 10 * pow10 k

digits_value-digits :
    (k n : ℕ) (rest : CString)
    → n < pow10 k
    → digits_value (digits k n ++ rest) 0 ≡ digits_value rest n
unfolding digits
digits_value-digits zero n rest h = ap (digits_value rest) (omega arith)
digits_value-digits (suc k) n rest h = elim (Bool-cases (n / 10 == 0)) [
  | inl e ↦
      let same : 0 * 10 + n % 10 ≡ n = ground arith in
      rw e (digits_value-cons (n % 10) rest 0 (omega arith) ∙ ap (digits_value rest) same)
  | inr e ↦
      let same : n / 10 * 10 + n % 10 ≡ n = omega arith in
      rw (e, append_assoc)
        (digits_value-digits k (n / 10) ((b'0' + n % 10) ∷ rest) (omega arith)
          ∙ digits_value-cons (n % 10) rest (n / 10) (omega arith)
          ∙ ap (digits_value rest) same)
]

pub digits-nonempty : (k n : ℕ) → 0 < length (digits (suc k) n)
unfolding digits
digits-nonempty k n =
    let first = if n / 10 == 0 then [] else digits k (n / 10) in
    omega (arith, length-append {0} first ((b'0' + n % 10) ∷ []))

-- What the digits begin with: not a sign, and not white space.
digits-first :
    (k n : ℕ) → (c : ℕ) × (cs : CString) × (digits (suc k) n ≡ c ∷ cs) × (b'0' ≤ c) × (c ≤ b'9')
digits-first k n = go (digits (suc k) n) refl (digits-AreDigits (suc k) n)
  where
    go :
        (s : CString)
        → digits (suc k) n ≡ s
        → AreDigits (digits (suc k) n)
        → (c : ℕ) × (cs : CString) × (digits (suc k) n ≡ c ∷ cs) × (b'0' ≤ c) × (c ≤ b'9')
    go [] e h = absurd (omega (arith, digits-nonempty k n, ap (length {A = ℕ}) e))
    go (c ∷ cs) e h = let h' : AreDigits (c ∷ cs) = rw e at h in (c, cs, e, h'.0, h'.1)

atoi-digit :
    (c : ℕ) (cs : CString) (n : ℕ)
    → b'0' ≤ c
    → c ≤ b'9'
    → digits_value (c ∷ cs) 0 ≡ n
    → n < 2 ^ 31
    → atoi (c ∷ cs) ≡ some n
unfolding atoi skip_white is_white signed_value
atoi-digit c cs n lo hi e small = ground (arith, e)

pub decimal-digits : (n : ℕ) → n < 2 ^ 31 → decimal n ≡ digits 10 n
unfolding decimal
decimal-digits n h = ground arith

-- `atoi` reads back what `%d` printed, for a number that an `int` holds and with a text behind it
-- that begins with no digit.
pub atoi-decimal :
    (n : ℕ) (rest : CString)
    → n < 2 ^ 31
    → digits_value rest n ≡ n
    → atoi (decimal n ++ rest) ≡ some n
atoi-decimal n rest h stops =
    let (c, cs, e, lo, hi) = digits-first 9 n in
    let value = digits_value-digits 10 n rest (omega arith) ∙ stops in
    let shape : digits 10 n ++ rest ≡ c ∷ (cs ++ rest) = ap (λ (s : CString). s ++ rest) e in
    rw (decimal-digits n h, shape)
      (atoi-digit c (cs ++ rest) n lo hi
        (sym (ap (λ (s : CString). digits_value s 0) shape) ∙ value) h)

pub decimal-AreDigits : (n : ℕ) → n < 2 ^ 31 → AreDigits (decimal n)
decimal-AreDigits n h = rw (decimal-digits n h) (digits-AreDigits 10 n)

pub length-decimal : (n : ℕ) → n < 2 ^ 31 → length (decimal n) ≤ 10
length-decimal n h = rw (decimal-digits n h) (length-digits 10 n)

-- A printed number is a token.
pub decimal-IsToken : (n : ℕ) → n < 2 ^ 31 → IsToken (decimal n)
decimal-IsToken n h =
    let (c, cs, e, lo, hi) = digits-first 9 n in
    let at : decimal n ≡ c ∷ cs = decimal-digits n h ∙ e in
    let digits' : AreDigits (c ∷ cs) = rw at at (decimal-AreDigits n h) in
    rw at (AreDigits-IsWord (c ∷ cs) digits')
