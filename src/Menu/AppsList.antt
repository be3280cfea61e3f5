-- ===== src/Menu/AppsList.antt =====
-- fruitchip-menu/src/apps.c: the boot list from the index of the apps. The text of an item is its
-- characters before the NUL.
pub mod RoundTrip
use fruitchip.Common.{
  ℕ, zero, suc, Bool, true, false, not, ◌&&◌, ◌==◌, List, [], ◌∷◌, ◌++◌, ◌+◌, ◌-◌, ◌^◌,
  if◌then◌else◌, ltb, leb, u8, bit_and, is_nonzero, Option, none, some, take, drop, length,
}
use fruitchip.Menu.WideText.{Libc, wstring_new_copied_str, wstring_new_copied_wstr}
use fruitchip.Host.Apps.{attr_disable_next_osdsys_hook, attr_osdsys}
use fruitchip.Menu.Navigation.{ListState, list_len, list_push_item, list_remove_item, remove_at}

-- The items and, in an array of their own, their attribute words.
pub record BootList : Type 0 where
  pub boot_list : ListState (List ℕ)
  pub boot_list_attr : List ℕ

unfoldable pub apps_list_push_item : BootList → List ℕ → ℕ → BootList
apps_list_push_item s item attr = record {
  boot_list = (list_push_item s.boot_list item).1;
  boot_list_attr = s.boot_list_attr ++ attr ∷ [];
}

-- The highlight is moved back at most `fuel - 1` times; none is a loop that has not ended.
unfoldable pub apps_list_remove_item : ℕ → BootList → ℕ → Option BootList
apps_list_remove_item fuel s idx = removed (list_remove_item fuel s.boot_list idx)
  where
    removed : Option (ListState (List ℕ)) → Option BootList
    removed none = none
    removed (some l) =
        some (record { boot_list = l; boot_list_attr = remove_at idx s.boot_list_attr })

-- `-ENOENT` and `-EIO` in a `u32`.
abbrev pub minus_enoent : ℕ
minus_enoent = 2 ^ 32 - 2

abbrev pub minus_eio : ℕ
minus_eio = 2 ^ 32 - 5

-- From whether the attribute file opened, what its read returned and the word that was read.
abbrev pub app_read_attributes : Bool → ℕ → ℕ → ℕ
app_read_attributes false ret attr = minus_enoent
app_read_attributes true ret attr = if ret == 4 then attr else minus_eio

-- The loop over the index: `attr_of` is what `app_read_attributes` returns for a number, and the test
-- `attr < 0` of the unsigned word never holds. The list copies the item that is pushed, and
-- with it its text. None is a read behind the index.
unfoldable pub push_apps : Libc → (ℕ → ℕ) → ℕ → ℕ → List ℕ → BootList → Option BootList
push_apps libc attr_of idx zero ptr s = some s
push_apps libc attr_of idx (suc n) [] s = none
push_apps libc attr_of idx (suc n) (name_len ∷ ptr) s =
    let left_text = wstring_new_copied_str libc idx (take name_len ptr) in
    let item = wstring_new_copied_wstr left_text in
    let rest =
      push_apps libc attr_of (idx + 1) n (drop name_len ptr)
        (apps_list_push_item s item (attr_of (u8 (idx + 1)))) in
    if leb name_len (length ptr) then rest else none

-- "OSDSYS".
abbrev pub osdsys_text : List ℕ
osdsys_text = b'O' ∷ b'S' ∷ b'D' ∷ b'S' ∷ b'Y' ∷ b'S' ∷ []

-- `MAX_LIST_ITEMS_ON_SCREEN`, `BOOT_ITEM_OSDSYS`, `BOOT_ITEM_FWFS`.
abbrev pub max_list_items_on_screen : ℕ
max_list_items_on_screen = 10

abbrev pub boot_item_osdsys : ℕ
boot_item_osdsys = 0

abbrev pub boot_item_fwfs : ℕ
boot_item_fwfs = 1

-- The list with which the function begins.
unfoldable pub osdsys_only : BootList
unfolding apps_list_push_item list_push_item
osdsys_only =
    apps_list_push_item
      (record {
        boot_list = record {
          items = [];
          hilite_idx = boot_item_osdsys;
          start_item_idx = 0;
          max_items = max_list_items_on_screen;
        };
        boot_list_attr = [];
      })
      osdsys_text (attr_disable_next_osdsys_hook + attr_osdsys)

-- The highlight from the setting, if it was read and is in the list.
unfoldable pub hilite_autoboot : Bool × ℕ → BootList → BootList
hilite_autoboot setting s =
    if setting.0 && ltb setting.1 (list_len s.boot_list)
    then record s { boot_list = record (s.boot_list) { hilite_idx = setting.1 } }
    else s

-- The result and the list: `index` is what `apps_read_index` returns, and `setting` what
-- `modchip_settings_get_with_retry` does.
unfoldable pub apps_list_populate :
    Libc → (ℕ → ℕ) → Bool × ℕ → Option (List ℕ) → Option (Bool × BootList)
apps_list_populate libc attr_of setting none = some (false, osdsys_only)
apps_list_populate libc attr_of setting (some []) = none
apps_list_populate libc attr_of setting (some (apps_count ∷ ptr)) =
    populated (push_apps libc attr_of 0 apps_count ptr osdsys_only)
  where
    populated : Option BootList → Option (Bool × BootList)
    populated none = none
    populated (some s) = some (true, hilite_autoboot setting s)

unfoldable pub apps_attr_is_configurable : ℕ → Bool
apps_attr_is_configurable attr = is_nonzero (bit_and attr attr_osdsys)
