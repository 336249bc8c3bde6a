-- ===== src/Text/Tokens.antt =====
-- `strtok` on texts of words with single spaces between them, and arrays that hold a text.
use p.Prelude.{
  ℕ, zero, suc, ◌-◌, ◌<◌, ◌≡◌, ◌≢◌, refl, ap, ◌∙◌, sym, true, ◌||◌, List, [], ◌∷◌, ◌++◌, none, some,
  arith, ◌==◌, leb, length, length-append, take, drop, drop-length_append, take-length_append,
  append_assoc, append-nil, CString,
}
use p.Text.{zeros, overwrite, c_str, strcpy, strncpy_to, spaces, word, strtok, split_token, reach}

-- No byte is a space or a NUL.
abbrev pub IsWord : CString → Type 0
IsWord [] = Unit
IsWord (c ∷ cs) = (0 < c) × (c ≢ b' ') × IsWord cs

-- A word with a byte in it.
abbrev pub IsToken : CString → Type 0
IsToken [] = ⊥
IsToken (c ∷ cs) = IsWord (c ∷ cs)

word-append :
    (w t : CString) (c : ℕ) → IsWord w → (c == b' ' || c == 0) ≡ true → word (w ++ c ∷ t) ≡ w
unfolding word
word-append [] t c h e = ground arith
word-append (x ∷ w) t c h e = ground (arith, word-append w t c)

spaces-word : (x : ℕ) (w : CString) → x ≢ b' ' → spaces (x ∷ w) ≡ 0
unfolding spaces
spaces-word x w h = ground arith

reach-word :
    (x : ℕ) (w t : CString) (c : ℕ)
    → IsWord (x ∷ w)
    → (c == b' ' || c == 0) ≡ true
    → reach ((x ∷ w) ++ c ∷ t) ≡ length (x ∷ w)
unfolding reach
reach-word x w t c h e =
    rw (spaces-word x (w ++ c ∷ t) h.1, word-append (x ∷ w) t c h e) (omega arith)

-- The token at the pointer, with the space behind it.
pub strtok-space :
    (p w t : CString)
    → IsToken w
    → (p' : List ℕ) × (strtok (record { passed = p; rest = w ++ b' ' ∷ t })
        ≡ some (some w, record { passed = p'; rest = t }))
unfolding strtok split_token
strtok-space p [] t h = absurd h
strtok-space p (x ∷ w) t h =
    let r = (x ∷ w) ++ b' ' ∷ t in
    (
      (p ++ take (reach r) r) ++ 0 ∷ [],
      rw
          (
            reach-word x w t b' ' h refl,
            spaces-word x (w ++ b' ' ∷ t) h.1,
            word-append (x ∷ w) t b' ' h refl,
            drop-length_append (x ∷ w) (b' ' ∷ t),
          )
          refl,
    )

-- The last token, at the end of the text.
pub strtok-end :
    (p w t : CString)
    → IsToken w
    → (p' : List ℕ) × (strtok (record { passed = p; rest = w ++ 0 ∷ t })
        ≡ some (some w, record { passed = p'; rest = 0 ∷ t }))
unfolding strtok split_token
strtok-end p [] t h = absurd h
strtok-end p (x ∷ w) t h =
    let r = (x ∷ w) ++ 0 ∷ t in
    (
      p ++ take (reach r) r,
      rw
          (
            reach-word x w t 0 h refl,
            spaces-word x (w ++ 0 ∷ t) h.1,
            word-append (x ∷ w) t 0 h refl,
            drop-length_append (x ∷ w) (0 ∷ t),
          )
          refl,
    )

-- At the end of the text there is no token.
pub strtok-nul :
    (p t : List ℕ)
    → (p' : List ℕ) × (strtok (record { passed = p; rest = 0 ∷ t })
        ≡ some (none, record { passed = p'; rest = 0 ∷ t }))
unfolding strtok spaces word split_token reach
strtok-nul p t = (p ++ take (reach (0 ∷ t)) (0 ∷ t), refl)

-- A text with no NUL in it.
abbrev pub IsText : CString → Type 0
IsText [] = Unit
IsText (c ∷ cs) = (0 < c) × IsText cs

pub IsWord-IsText : (w : CString) → IsWord w → IsText w
IsWord-IsText [] h = tt
IsWord-IsText (c ∷ w) h = (h.0, IsWord-IsText w h.2)

pub IsText-append : (a b : CString) → IsText a → IsText b → IsText (a ++ b)
IsText-append [] b ha hb = hb
IsText-append (c ∷ a) b ha hb = (ha.0, IsText-append a b ha.1 hb)

-- An array into which a text was copied is read as that text.
pub c_str-append : (s t : List ℕ) → IsText s → c_str (s ++ 0 ∷ t) ≡ some s
unfolding c_str
c_str-append [] t h = refl
c_str-append (b ∷ s) t h = ground (arith, c_str-append s t h.1)

pub length-zeros : (n : ℕ) → length (zeros n) ≡ n
unfolding zeros
length-zeros zero = refl
length-zeros (suc n) = ap suc (length-zeros n)

drop-zeros : (k n : ℕ) → drop k (zeros n) ≡ zeros (n - k)
unfolding zeros
drop-zeros zero n = let e : n - 0 ≡ n = omega arith in rw e refl
drop-zeros (suc k) zero = let e : 0 - suc k ≡ 0 = omega arith in rw e refl
drop-zeros (suc k) (suc n) = let e : suc n - suc k ≡ n - k = omega arith in rw e (drop-zeros k n)

-- `strcpy` of a text that fits, and what the array reads as then.
pub strcpy-c_str :
    (dst s : List ℕ)
    → IsText s
    → length s < length dst
    → (dst' : List ℕ) × (strcpy dst s ≡ some dst')
      × (c_str dst' ≡ some s)
      × (take (length s) dst' ≡ s)
unfolding strcpy overwrite
strcpy-c_str dst s h fits =
    let e : leb (length (s ++ 0 ∷ [])) (length dst) ≡ true =
      ground (arith, length-append {0} s (0 ∷ [])) in
    let tail = drop (length (s ++ 0 ∷ [])) dst in
    (
      (s ++ 0 ∷ []) ++ tail,
      rw e refl,
      rw (append_assoc) (c_str-append s tail h),
      rw (append_assoc) (take-length_append s (0 ∷ tail)),
    )

-- `strncpy` of a whole text into an array that holds zeros only.
pub strncpy_to-c_str :
    (s : CString) (m : ℕ)
    → IsText s
    → length s < m
    → (dst' : List ℕ) × (strncpy_to (zeros m) s (length s) ≡ some dst') × (c_str dst' ≡ some s)
unfolding strncpy_to
strncpy_to-c_str s m h fits =
    let room : leb (length s) (length (zeros m)) ≡ true = ground (arith, length-zeros m) in
    let whole : take (length s) s ≡ s =
      ap (take (length s)) (sym (append-nil s)) ∙ take-length_append s [] in
    let nothing : length s - length s ≡ 0 = omega arith in
    let more : m - length s ≡ suc (m - length s - 1) = omega arith in
    (
      s ++ zeros (m - length s),
      rw (room, whole, nothing, drop-zeros (length s) m) (unfold zeros in refl),
      rw more (unfold zeros in c_str-append s (zeros (m - length s - 1)) h),
    )

IsWord-append : (a b : CString) → IsWord a → IsWord b → IsWord (a ++ b)
IsWord-append [] b ha hb = hb
IsWord-append (c ∷ a) b ha hb = (ha.0, ha.1, IsWord-append a b ha.2 hb)

pub IsToken-append : (a b : CString) → IsToken a → IsWord b → IsToken (a ++ b)
IsToken-append [] b ha hb = absurd ha
IsToken-append (c ∷ a) b ha hb = (ha.0, ha.1, IsWord-append a b ha.2 hb)

pub IsToken-IsWord : (w : CString) → IsToken w → IsWord w
IsToken-IsWord [] h = absurd h
IsToken-IsWord (c ∷ cs) h = h

zeros-pos : (n : ℕ) → 0 < n → zeros n ≡ 0 ∷ zeros (n - 1)
unfolding zeros
zeros-pos zero h = absurd (omega arith)
zeros-pos (suc n) h = let e : suc n - 1 ≡ n = omega arith in rw e refl

-- Bytes that were read to the start of an array of zeros.
pub overwrite-zeros :
    (s : List ℕ) (m : ℕ)
    → length s < m
    → overwrite (zeros m) s ≡ some (s ++ 0 ∷ zeros (m - length s - 1))
unfolding overwrite
overwrite-zeros s m fits =
    let room : leb (length s) (length (zeros m)) ≡ true = ground (arith, length-zeros m) in
    rw (room, drop-zeros (length s) m, zeros-pos (m - length s) (omega arith)) refl
