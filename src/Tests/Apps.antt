-- ===== src/Tests/Apps.antt =====
-- An index of two apps.
use fruitchip.Common.{ℕ, List, ◌==◌, if◌then◌else◌, true, [], ◌∷◌, ◌<◌, ◌≡◌, arith, some}
use fruitchip.Menu.WideText.{Libc, IsAscii}
use fruitchip.Menu.Navigation.{list_len}
use fruitchip.Menu.AppsList.{BootList, osdsys_text, apps_list_populate}
use fruitchip.Menu.AppsList.RoundTrip.{apps_list_populate-named_list}

-- The C locale, on memory that is zero.
abbrev mbtowc : List ℕ → ℕ × ℕ
mbtowc [] = (0, 0)
mbtowc (x ∷ xs) = (x, if x == 0 then 0 else 1)

abbrev c_locale : Libc
c_locale = record { mbtowc = mbtowc; malloc_wchars = λ idx. 0 ∷ 0 ∷ 0 ∷ 0 ∷ [] }

c_locale-IsAscii : IsAscii c_locale
c_locale-IsAscii = record { one_byte = λ x xs pos small. ground arith }

-- The second app is chosen; each attribute word is the number of the app.
apps_list_populate-named_list_example :
    (t : BootList) × (apps_list_populate c_locale
        (λ i. i)
        (true, 2)
        (some (2 ∷ 1 ∷ b'a' ∷ 3 ∷ b'e' ∷ b'l' ∷ b'f' ∷ []))
      ≡ some (true, t))
    × (t.boot_list.items ≡ osdsys_text ∷ (b'a' ∷ []) ∷ (b'e' ∷ b'l' ∷ b'f' ∷ []) ∷ [])
    × (t.boot_list_attr ≡ 3 ∷ 1 ∷ 2 ∷ [])
    × (t.boot_list.hilite_idx < list_len t.boot_list)
apps_list_populate-named_list_example =
    apps_list_populate-named_list c_locale c_locale-IsAscii (λ i. i) (true, 2)
      ((b'a' ∷ []) ∷ (b'e' ∷ b'l' ∷ b'f' ∷ []) ∷ []) (ground arith) (omega arith)
