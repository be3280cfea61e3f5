-- ===== src/Menu/WideText.antt =====
-- fruitchip-menu/lib/wstring.h: the wide text of a name that is not terminated, and the copy of it that
-- a list item keeps (`list_item_copy` of fruitchip-menu/src/components/list.c).
use fruitchip.Common.{
  ℕ, zero, suc, List, [], ◌∷◌, ◌++◌, ◌<◌, ◌≤◌, ◌≡◌, refl, arith, ◌∙◌, ap, All, drop, length, get_or,
  ltb, ◌==◌, if◌then◌else◌,
}

-- What is used of the C library. `mbtowc` takes the bytes that are left and returns the wide character
-- and the number of bytes that it takes; 0 stands for every result below 1, and the encoding has no
-- shift states. `malloc_wchars` is what the memory holds, from the array on that the call of `malloc`
-- for the name of some number returns.
pub record Libc : Type 0 where
  pub mbtowc : List ℕ → ℕ × ℕ
  pub malloc_wchars : ℕ → List ℕ

-- What the C standard says of ASCII text, in an encoding that has it: a byte is its own character.
pub record IsAscii (libc : Libc) : Type 0 where
  pub one_byte : (x : ℕ) (xs : List ℕ) → 0 < x → x < 128 → libc.mbtowc (x ∷ xs) ≡ (x, 1)

module _ (libc : Libc) where
  -- The loop of `wstring_new_copied_str`, at most `fuel` rounds.
  unfoldable pub copied_chars : ℕ → List ℕ → List ℕ
  copied_chars zero str = []
  copied_chars (suc fuel) [] = []
  copied_chars (suc fuel) (x ∷ str) =
      let (wchar, wchar_len) = libc.mbtowc (x ∷ str) in
      let rest = copied_chars fuel (drop wchar_len (x ∷ str)) in
      if ltb wchar_len 1 then [] else wchar ∷ rest

  -- `wstring_new_copied_str` for the name of number `idx`: the memory from its array on. No NUL is
  -- stored behind the characters. A round takes at least one byte, so that the bytes are fuel enough.
  unfoldable pub wstring_new_copied_str : ℕ → List ℕ → List ℕ
  unfolding copied_chars
  wstring_new_copied_str idx str =
      let chars = copied_chars (length str) str in
      chars ++ drop (length chars) (libc.malloc_wchars idx)

-- The characters that `wcsdup` copies, in `wstring_new_copied_wstr`: those before the first NUL.
unfoldable pub wstring_new_copied_wstr : List ℕ → List ℕ
wstring_new_copied_wstr [] = []
wstring_new_copied_wstr (c ∷ cs) =
    let rest = wstring_new_copied_wstr cs in if c == 0 then [] else c ∷ rest

-- Bytes that are ASCII characters, none of them NUL.
abbrev pub Ascii : List ℕ → Type 0
Ascii = All (λ x. (0 < x) × (x < 128))

module _ (libc : Libc) (is_ascii : IsAscii libc) where
  copied_chars-Ascii :
      (fuel : ℕ) (str : List ℕ) → length str ≤ fuel → Ascii str → copied_chars libc fuel str ≡ str
  unfolding copied_chars
  copied_chars-Ascii zero [] h a = refl
  copied_chars-Ascii zero (x ∷ str) h a = absurd (omega arith)
  copied_chars-Ascii (suc fuel) [] h a = refl
  copied_chars-Ascii (suc fuel) (x ∷ str) h a =
      rw (is_ascii.one_byte x str a.0.0 a.0.1)
        (ap (λ cs. x ∷ cs) (copied_chars-Ascii fuel str (omega arith) a.1))

  -- A text before a NUL is copied, and what is behind it is not.
  copied_wstr :
      (str memory : List ℕ)
      → Ascii str
      → get_or memory 0 0 ≡ 0
      → wstring_new_copied_wstr (str ++ memory) ≡ str
  unfolding wstring_new_copied_wstr
  copied_wstr [] [] a e = refl
  copied_wstr [] (c ∷ cs) a e = rw e refl
  copied_wstr (x ∷ str) memory a e = ground (arith, copied_wstr str memory a.1 e)

  get_or-drop : (n : ℕ) (xs : List ℕ) → get_or (drop n xs) 0 0 ≡ get_or xs n 0
  get_or-drop zero xs = refl
  get_or-drop (suc n) [] = refl
  get_or-drop (suc n) (x ∷ xs) = get_or-drop n xs

  -- The item of an ASCII name has that name as its text, if the memory of the array happens to hold a
  -- NUL behind it.
  pub copied_name :
      (idx : ℕ) (name : List ℕ)
      → Ascii name
      → get_or (libc.malloc_wchars idx) (length name) 0 ≡ 0
      → wstring_new_copied_wstr (wstring_new_copied_str libc idx name) ≡ name
  unfolding wstring_new_copied_str
  copied_name idx name a e =
      rw (copied_chars-Ascii (length name) name (omega arith) a)
        (copied_wstr name _ a (get_or-drop (length name) (libc.malloc_wchars idx) ∙ e))
