-- ===== src/CString.antt =====
-- The C string functions that the program calls, on arrays of bytes: <string.h> and `snprintf`.
-- An array is the list of its bytes. Where C would read on past the end of a list that holds no
-- NUL, the functions here stop at its end; the handlers that print or copy an id test for it.
use ntut_network_and_system.Base.{
  ℕ, zero, suc, ◌+◌, ◌-◌, ◌≤◌, ◌<◌, ◌≡◌, refl, ◌≢◌, Bool, true, false, ◌&&◌, ◌||◌, not, List, [],
  ◌∷◌, ◌++◌, arith, ◌==◌, ltb, lt-ltb, if◌then◌else◌, length, take, drop, ◌∙◌, length-take,
  length-drop, length-append, ap, Run, done, fault,
}

-- The text of an array: its bytes before the first NUL.
unfoldable pub c_str : List ℕ → List ℕ
c_str [] = []
c_str (c ∷ cs) = if c == 0 then [] else c ∷ c_str cs

-- The array holds a NUL.
unfoldable pub terminated : List ℕ → Bool
terminated [] = false
terminated (c ∷ cs) = if c == 0 then true else terminated cs

-- `strcmp(a, b) == 0`
unfoldable pub str_eq : List ℕ → List ℕ → Bool
str_eq (a ∷ cs) (b ∷ ds) = if a == b then (if a == 0 then true else str_eq cs ds) else false
str_eq (a ∷ cs) [] = false
str_eq [] ds = false

-- `strncpy(dst, src, n)`: the `n` bytes that it writes, padded with NUL.
unfoldable pub strncpy : ℕ → List ℕ → List ℕ
strncpy zero src = []
strncpy (suc n) [] = 0 ∷ strncpy n []
strncpy (suc n) (c ∷ cs) = if c == 0 then 0 ∷ strncpy n [] else c ∷ strncpy n cs

-- Whether `strncpy(dst, src, n)` reads nothing behind `src`: it stops at a NUL or after `n` bytes.
abbrev pub strncpy_inside : ℕ → List ℕ → Bool
strncpy_inside n src = terminated src || not (ltb (length src) n)

-- `snprintf(buf, sizeof(buf), text)`: what does not fit is cut off, and a NUL follows; the rest of
-- the buffer stays as it was.
unfoldable pub snprintf : List ℕ → List ℕ → List ℕ
snprintf buf text = let kept = take (length buf - 1) text in kept ++ 0 ∷ drop (length kept + 1) buf

-- `strcpy(dst, src)`: the text and its NUL; what does not fit is written outside `dst`.
unfoldable pub strcpy : List ℕ → List ℕ → Run (List ℕ)
strcpy dst src =
    if terminated src && ltb (length (c_str src)) (length dst)
    then done (c_str src ++ 0 ∷ drop (length (c_str src) + 1) dst)
    else fault

-- Two arrays that `strcmp` finds equal hold the same text.
pub str_eq-c_str : (a b : List ℕ) → str_eq a b ≡ true → c_str a ≡ c_str b
unfolding str_eq c_str
str_eq-c_str [] b h = cc
str_eq-c_str (x ∷ a) [] h = cc
str_eq-c_str (x ∷ a) (y ∷ b) h = ground (arith, str_eq-c_str a b)

-- Two arrays with a NUL and the same text are equal for `strcmp`.
pub c_str-str_eq :
    (a b : List ℕ)
    → terminated a ≡ true
    → terminated b ≡ true
    → c_str a ≡ c_str b
    → str_eq a b ≡ true
unfolding str_eq c_str terminated
c_str-str_eq [] b p q h = cc
c_str-str_eq (x ∷ a) [] p q h = cc
c_str-str_eq (x ∷ a) (y ∷ b) p q h = ground (arith, c_str-str_eq a b)

-- An array that `strcmp` finds equal to another holds a NUL.
pub str_eq-terminated : (a b : List ℕ) → str_eq a b ≡ true → terminated b ≡ true
unfolding str_eq terminated
str_eq-terminated [] b h = cc
str_eq-terminated (x ∷ a) [] h = cc
str_eq-terminated (x ∷ a) (y ∷ b) h = ground (arith, str_eq-terminated a b)

pub str_eq_sym : (a b : List ℕ) → str_eq a b ≡ str_eq b a
unfolding str_eq
str_eq_sym [] [] = refl
str_eq_sym [] (y ∷ b) = refl
str_eq_sym (x ∷ a) [] = refl
str_eq_sym (x ∷ a) (y ∷ b) = ground (arith, str_eq_sym a b)

pub str_eq_trans : (a b c : List ℕ) → str_eq a b ≡ true → str_eq a c ≡ str_eq b c
unfolding str_eq
str_eq_trans [] b c h = cc
str_eq_trans (x ∷ a) [] c h = cc
str_eq_trans (x ∷ a) (y ∷ b) [] h = refl
str_eq_trans (x ∷ a) (y ∷ b) (z ∷ c) h = ground (arith, str_eq_trans a b c)

pub length-strncpy : (n : ℕ) (src : List ℕ) → length (strncpy n src) ≡ n
unfolding strncpy
length-strncpy zero src = refl
length-strncpy (suc n) [] = ap suc (length-strncpy n [])
length-strncpy (suc n) (c ∷ cs) = ground (arith, length-strncpy n cs, length-strncpy n [])

c_str-strncpy_nil : (n : ℕ) (rest : List ℕ) → c_str (strncpy n [] ++ 0 ∷ rest) ≡ []
unfolding c_str strncpy
c_str-strncpy_nil zero rest = refl
c_str-strncpy_nil (suc n) rest = refl

-- A copy with a NUL behind it holds the first `n` characters of the text.
pub c_str-strncpy :
    (n : ℕ) (src rest : List ℕ) → c_str (strncpy n src ++ 0 ∷ rest) ≡ take n (c_str src)
unfolding c_str strncpy
c_str-strncpy zero src rest = refl
c_str-strncpy (suc n) [] rest = refl
c_str-strncpy (suc n) (c ∷ cs) rest = ground (arith, c_str-strncpy n cs rest)

-- A NUL at the end terminates an array.
pub terminated-append : (cs : List ℕ) → terminated (cs ++ 0 ∷ []) ≡ true
unfolding terminated
terminated-append [] = refl
terminated-append (c ∷ cs) = ground (arith, terminated-append cs)

-- The text of an array with a NUL is shorter than the array.
pub length-c_str : (cs : List ℕ) → terminated cs ≡ true → length (c_str cs) < length cs
unfolding terminated c_str
length-c_str [] h = cc
length-c_str (c ∷ cs) h = ground (arith, length-c_str cs)

pub length-snprintf : (buf text : List ℕ) → 0 < length buf → length (snprintf buf text) ≡ length buf
unfolding snprintf
length-snprintf buf text h =
    let kept : List ℕ = take (length buf - 1) text in
    length-append kept (0 ∷ drop (length kept + 1) buf)
    ∙ omega (arith, length-drop (length kept + 1) buf, length-take (length buf - 1) text)

-- No character of a text is a NUL.
abbrev pub IsText : List ℕ → Type 0
IsText [] = Unit
IsText (c ∷ cs) = (c ≢ 0) × IsText cs

pub c_str-IsText : (cs : List ℕ) → IsText (c_str cs)
unfolding c_str
c_str-IsText [] = tt
c_str-IsText (c ∷ cs) = ground (arith, c_str-IsText cs)

-- A text with a NUL behind it is read back whole.
pub c_str-text : (cs rest : List ℕ) → IsText cs → c_str (cs ++ 0 ∷ rest) ≡ cs
unfolding c_str
c_str-text [] rest h = refl
c_str-text (c ∷ cs) rest h = ground (arith, c_str-text cs rest h.1)

pub terminated-nul : (cs rest : List ℕ) → terminated (cs ++ 0 ∷ rest) ≡ true
unfolding terminated
terminated-nul [] rest = refl
terminated-nul (c ∷ cs) rest = ground (arith, terminated-nul cs rest)

-- `strcpy` of a C string that fits: the copy has its text and is as long as the array.
pub strcpy-done :
    (dst src : List ℕ)
    → terminated src ≡ true
    → length (c_str src) < length dst
    → (out : List ℕ) × (strcpy dst src ≡ done out)
      × (c_str out ≡ c_str src)
      × (terminated out ≡ true)
      × (length out ≡ length dst)
unfolding strcpy
strcpy-done dst src t h =
    let text = c_str src in
    let rest = drop (length text + 1) dst in
    (
      text ++ 0 ∷ rest,
      rw (t, lt-ltb (length text) (length dst) h),
      c_str-text text rest (c_str-IsText src),
      terminated-nul text rest,
      length-append text (0 ∷ rest) ∙ omega (arith, length-drop (length text + 1) dst),
    )

str_eq_nul : (cs ds : List ℕ) → str_eq (0 ∷ cs) ds ≡ str_eq (0 ∷ []) ds
unfolding str_eq
str_eq_nul cs [] = refl
str_eq_nul cs (d ∷ ds) = ground arith

-- A copy of a C string that fits is the same string for `strcmp`.
pub str_eq-copy :
    (n : ℕ) (src other : List ℕ)
    → terminated src ≡ true
    → length (c_str src) ≤ n
    → str_eq (strncpy n src ++ 0 ∷ []) other ≡ str_eq src other
unfolding str_eq strncpy terminated c_str
str_eq-copy n [] other t h = cc
str_eq-copy zero (c ∷ src) [] t h = refl
str_eq-copy zero (c ∷ src) (d ∷ other) t h = ground arith
str_eq-copy (suc n) (c ∷ src) [] t h = ground arith
str_eq-copy (suc n) (c ∷ src) (d ∷ other) t h = ground (arith, str_eq-copy n src other)

-- What stands behind the NUL of a C string is no part of it.
pub c_str-append : (cs rest : List ℕ) → terminated cs ≡ true → c_str (cs ++ rest) ≡ c_str cs
unfolding c_str terminated
c_str-append [] rest h = cc
c_str-append (c ∷ cs) rest h = ground (arith, c_str-append cs rest)

-- A NUL in the first bytes of an array is in the array.
pub terminated-take :
    (n k : ℕ) (cs : List ℕ) → terminated (take n (take k cs)) ≡ true → terminated (take n cs) ≡ true
unfolding terminated
terminated-take zero k cs h = h
terminated-take (suc n) zero cs h = cc
terminated-take (suc n) (suc k) [] h = h
terminated-take (suc n) (suc k) (c ∷ cs) h = ground (arith, terminated-take n k cs)

pub terminated-append_left :
    (cs rest : List ℕ) → terminated cs ≡ true → terminated (cs ++ rest) ≡ true
unfolding terminated
terminated-append_left [] rest h = cc
terminated-append_left (c ∷ cs) rest h = ground (arith, terminated-append_left cs rest)
