-- ===== src/Tests/Store.antt =====
-- A store that is a plain memory, and a start-up on it.
use fruitchip.Common.{
  ℕ, zero, suc, true, List, [], ◌∷◌, ◌+◌, ◌-◌, ◌<◌, ◌≡◌, refl, arith, ◌∙◌, ap, some, if◌then◌else◌,
  leb, ltb, ◌&&◌, length, get_or,
}
use fruitchip.Settings.Startup.{
  Store, StoreLaws, store_all, settings_init, settings_bytes, default_settings,
}
use fruitchip.Settings.Durable.{Saves, Succeed}
use fruitchip.Settings.Restart.{settings_init-set_setting}
use fruitchip.BootRom.Write.Kv.{set_setting}

abbrev Bytes : Type 0
Bytes = ℕ → ℕ

abbrev bytes_at : ℕ → ℕ → Bytes → List ℕ
bytes_at a zero m = []
bytes_at a (suc n) m = m a ∷ bytes_at (a + 1) n m

abbrev plain : Store Bytes
plain = record {
  init = λ m. (true, m);
  read = bytes_at;
  write = λ address bytes m. (
    true,
    λ a.
        if leb address a && ltb a (address + length bytes)
        then get_or bytes (a - address) 0
        else m a,
  );
  content = λ m a. m a;
}

read_plain : (a n : ℕ) (m : Bytes) (i : ℕ) → i < n → get_or (bytes_at a n m) i 0 ≡ m (a + i)
read_plain a zero m i h = absurd (omega arith)
read_plain a (suc n) m zero h = ap m (omega arith)
read_plain a (suc n) m (suc i) h = read_plain (a + 1) n m i (omega arith) ∙ ap m (omega arith)

plain-StoreLaws : StoreLaws plain
plain-StoreLaws = record {
  read_content = read_plain;
  write_content = λ address bytes s a ok. refl;
  init_content = λ s a ok. refl;
}

-- A store that was never written.
abbrev blank : Bytes
blank a = 0

abbrev started : Bytes
started = (plain.write 0 (settings_bytes default_settings) blank).1

started-Saves : Saves plain started default_settings
started-Saves = record { magic = refl; autoboot = refl; delay = refl; item = refl; options = refl }

all-Succeed : Succeed plain (set_setting 1 300 default_settings).1 started
unfolding set_setting
all-Succeed = (refl, tt)

settings_init-set_setting_example :
    settings_init plain (store_all plain (set_setting 1 300 default_settings).1 started)
    ≡ some (
      (set_setting 1 300 default_settings).0,
      store_all plain (set_setting 1 300 default_settings).1 started,
    )
settings_init-set_setting_example =
    settings_init-set_setting plain plain-StoreLaws started default_settings 1 300 started-Saves
      refl (omega arith) all-Succeed refl
