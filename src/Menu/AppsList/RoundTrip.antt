-- ===== src/Menu/AppsList/RoundTrip.antt =====
-- The list of an index that is written as the apps image builder writes it.
use mathlib.Core.List.{append_assoc, append-nil}
use fruitchip.Common.{
  Bool-cases, inl, inr, ltb, ◌&&◌, ℕ, Bool, true, List, [], ◌∷◌, ◌++◌, ◌+◌, ◌<◌, ◌≡◌, refl, arith,
  ◌∙◌, u8, leb, some, take, drop, length, take-append, take-all, length-append, get_or,
}
use fruitchip.Menu.WideText.{Libc, IsAscii, Ascii, copied_name}
use fruitchip.Menu.Navigation.{list_len, list_push_item}
use fruitchip.Menu.AppsList.{
  BootList, apps_list_push_item, push_apps, osdsys_only, osdsys_text, apps_list_populate,
  hilite_autoboot,
}

-- The names, each after its length.
abbrev pub named_list : List (List ℕ) → List ℕ
named_list [] = []
named_list (name ∷ names) = length name ∷ (name ++ named_list names)

-- The attribute words of the apps from a number on.
abbrev pub attributes : (ℕ → ℕ) → ℕ → List (List ℕ) → List ℕ
attributes attr_of idx [] = []
attributes attr_of idx (name ∷ names) = attr_of (idx + 1) ∷ attributes attr_of (idx + 1) names

-- The list behind which the names and their words are put.
abbrev pub with_apps : (ℕ → ℕ) → ℕ → List (List ℕ) → BootList → BootList
with_apps attr_of idx names s = record {
  boot_list = record (s.boot_list) { items = s.boot_list.items ++ names };
  boot_list_attr = s.boot_list_attr ++ attributes attr_of idx names;
}

drop-append : (xs ys : List ℕ) → drop (length xs) (xs ++ ys) ≡ ys
drop-append [] ys = refl
drop-append (x ∷ xs) ys = drop-append xs ys

-- Names that are shown as they are: ASCII text, and where the memory of the array for a name holds a
-- NUL behind it, which nothing stores there.
abbrev pub Readable : Libc → ℕ → List (List ℕ) → Type 0
Readable libc idx [] = Unit
Readable libc idx (name ∷ names) =
    (Ascii name × (get_or (libc.malloc_wchars idx) (length name) 0 ≡ 0))
    × Readable libc (idx + 1) names

push_apps-named_list :
    (libc : Libc) (is_ascii : IsAscii libc) (attr_of : ℕ → ℕ) (names : List (List ℕ)) (idx : ℕ)
    (s : BootList)
    → Readable libc idx names
    → idx + length names < 256
    → push_apps libc attr_of idx (length names) (named_list names) s
      ≡ some (with_apps attr_of idx names s)
unfolding push_apps apps_list_push_item list_push_item
push_apps-named_list libc is_ascii attr_of [] idx s r h =
    rw (append-nil s.boot_list.items, append-nil s.boot_list_attr) refl
push_apps-named_list libc is_ascii attr_of (name ∷ names) idx s r h =
    rw
      (
        room,
        drop-append name (named_list names),
        taken,
        small,
        copied_name libc is_ascii idx name r.0.0 r.0.1,
      )
      (push_apps-named_list libc is_ascii attr_of names (idx + 1)
          (apps_list_push_item s name (attr_of (idx + 1))) r.1 (omega arith)
        ∙ rw
            (
              append_assoc s.boot_list.items (name ∷ []) names,
              append_assoc s.boot_list_attr (attr_of (idx + 1) ∷ [])
                  (attributes attr_of (idx + 1) names),
            )
            refl)
  where
    room : leb (length name) (length (name ++ named_list names)) ≡ true
    room = ground (arith, length-append name (named_list names))

    taken : take (length name) (name ++ named_list names) ≡ name
    taken =
        take-append (length name) name (named_list names) (omega arith)
        ∙ take-all (length name) name (omega arith)

    small : u8 (idx + 1) ≡ idx + 1
    small = omega arith

same_items :
    (setting : Bool × ℕ) (s : BootList)
    → (hilite_autoboot setting s).boot_list.items ≡ s.boot_list.items
unfolding hilite_autoboot
same_items setting s = elim (Bool-cases (setting.0 && ltb setting.1 (list_len s.boot_list))) [
  | inl e ↦ rw e refl
  | inr e ↦ rw e refl
]

same_attrs :
    (setting : Bool × ℕ) (s : BootList)
    → (hilite_autoboot setting s).boot_list_attr ≡ s.boot_list_attr
unfolding hilite_autoboot
same_attrs setting s = elim (Bool-cases (setting.0 && ltb setting.1 (list_len s.boot_list))) [
  | inl e ↦ rw e refl
  | inr e ↦ rw e refl
]

hilite-lt :
    (setting : Bool × ℕ) (s : BootList)
    → s.boot_list.hilite_idx < list_len s.boot_list
    → (hilite_autoboot setting s).boot_list.hilite_idx
      < list_len (hilite_autoboot setting s).boot_list
unfolding hilite_autoboot
hilite-lt setting s h = elim (Bool-cases (setting.0 && ltb setting.1 (list_len s.boot_list))) [
  | inl e ↦ rw e (ground (arith, e))
  | inr e ↦ rw e h
]

-- If the index has the names of at most 255 apps, each after its length, all of them ASCII text, and
-- the memory of the array for each name holds a NUL behind it, then the list that is made of it
-- has the system first and then exactly these names in order, an attribute word for each item, and a
-- highlight inside the list.
pub apps_list_populate-named_list :
    (libc : Libc) (is_ascii : IsAscii libc) (attr_of : ℕ → ℕ) (setting : Bool × ℕ)
    (names : List (List ℕ))
    → Readable libc 0 names
    → length names < 256
    → (t : BootList) × (apps_list_populate libc attr_of setting
          (some (length names ∷ named_list names))
        ≡ some (true, t))
      × (t.boot_list.items ≡ osdsys_text ∷ names)
      × (t.boot_list_attr ≡ 3 ∷ attributes attr_of 0 names)
      × (t.boot_list.hilite_idx < list_len t.boot_list)
unfolding apps_list_populate osdsys_only
apps_list_populate-named_list libc is_ascii attr_of setting names r h = (
  hilite_autoboot setting (with_apps attr_of 0 names osdsys_only),
  rw (push_apps-named_list libc is_ascii attr_of names 0 osdsys_only r (omega arith)) refl,
  items,
  attrs,
  hilite-lt setting (with_apps attr_of 0 names osdsys_only) (omega arith),
)
  where
    items :
        (hilite_autoboot setting (with_apps attr_of 0 names osdsys_only)).boot_list.items
        ≡ osdsys_text ∷ names
    items = same_items setting (with_apps attr_of 0 names osdsys_only)

    attrs :
        (hilite_autoboot setting (with_apps attr_of 0 names osdsys_only)).boot_list_attr
        ≡ 3 ∷ attributes attr_of 0 names
    attrs = same_attrs setting (with_apps attr_of 0 names osdsys_only)
