-- ===== src/Loader/Stage1/Checks.antt =====
-- What stage 1 has checked when it jumps.
use fruitchip.Common.{
  ℕ, suc, Bool, true, false, List, [], ◌∷◌, ◌+◌, ◌-◌, ◌<◌, ◌≡◌, refl, inl, inr, arith, ◌∙◌, ap, sym,
  ==_iff, if◌then◌else◌, length, get_or, Bool-cases,
}
use fruitchip.Crc32.{crc32}
use fruitchip.Modchip.{cmd_get_ee_stage1_size, cmd_get_ee_stage2_size, cmd_get_ee_stage2}
use fruitchip.Host.Bus.{Bus, M, return, modchip_peek_n}
use fruitchip.Loader.Elf.{Ram, ram_bytes, store_bytes}
use fruitchip.Loader.Stage1.{
  Stage1, PanicType, exec_ps2, fetch_stage2, receive_stage2, modchip_cmd_or_panic, cmd_answer,
  is_answered, is_intact, ee_stage_2_addr,
}

-- Memory that holds a list, byte by byte.
holds_list :
    (ram : Ram) (a : ℕ) (xs : List ℕ)
    → ((k : ℕ) → k < length xs → ram (a + k) ≡ get_or xs k 0)
    → ram_bytes ram a (length xs) ≡ xs
holds_list ram a [] h = refl
holds_list ram a (x ∷ xs) h = rw (here, holds_list ram (a + 1) xs later) refl
  where
    here : ram a ≡ x
    here = ap ram {x = a} {y = a + 0} (omega arith) ∙ h 0 (omega arith)

    later : (k : ℕ) → k < length xs → ram (a + 1 + k) ≡ get_or xs k 0
    later k lt = ap ram {x = a + 1 + k} {y = a + suc k} (omega arith) ∙ h (suc k) (omega arith)

pub ram_bytes-store_bytes :
    (ram : Ram) (a : ℕ) (xs : List ℕ) → ram_bytes (store_bytes a xs ram) a (length xs) ≡ xs
ram_bytes-store_bytes ram a xs = holds_list (store_bytes a xs ram) a xs stored
  where
    stored : (k : ℕ) → k < length xs → store_bytes a xs ram (a + k) ≡ get_or xs k 0
    stored k lt = ground arith ∙ ap (λ i. get_or xs i 0) {x = a + k - a} {y = k} (omega arith)

-- What the three commands of stage 1, sent from a state on, are answered: each command is answered
-- OK, the sizes are the words that come then, and `before_bytes` is the state in which the bytes of
-- the second stage are received.
module _ {S : Type 0} (bus : Bus S) (start : S) where
  abbrev pub stage1_answer : ℕ × S
  stage1_answer = cmd_answer bus cmd_get_ee_stage1_size start

  abbrev pub stage1_size : ℕ × S
  stage1_size = bus.peek_u32 stage1_answer.1

  abbrev pub stage2_size_answer : ℕ × S
  stage2_size_answer = cmd_answer bus cmd_get_ee_stage2_size stage1_size.1

  abbrev pub stage2_size : ℕ × S
  stage2_size = bus.peek_u32 stage2_size_answer.1

  abbrev pub stage2_answer : ℕ × S
  stage2_answer = cmd_answer bus cmd_get_ee_stage2 stage2_size.1

  abbrev pub before_bytes : S
  before_bytes = stage2_answer.1

  -- Stage 1 started at some memory, and the jump is to the second stage: the three commands have been
  -- answered OK, the word behind the first stage, which has the size answered, is its checksum, as
  -- many bytes as answered have come over the bus and are in memory, and the word that came last is
  -- their checksum.
  pub record IsChecked (ram : Ram) (addr : ℕ) (placed : Ram) (t : S) : Type 0 where
    pub answered :
        (is_answered stage1_answer.0 ≡ true)
        × (is_answered stage2_size_answer.0 ≡ true)
        × (is_answered stage2_answer.0 ≡ true)
    pub intact : is_intact ram stage1_size.0 ≡ true
    pub target : addr ≡ ee_stage_2_addr
    pub stored :
        placed ≡ store_bytes ee_stage_2_addr (modchip_peek_n bus stage2_size.0 before_bytes).0 ram
    pub checked :
        bus.peek_u32 (modchip_peek_n bus stage2_size.0 before_bytes).1
        ≡ (crc32 (ram_bytes placed ee_stage_2_addr stage2_size.0), t)

module _ {S : Type 0} (bus : Bus S) where
  jump-inj : (a c : ℕ) (r q : Ram) → Stage1.jump a r ≡ Stage1.jump c q → (a ≡ c) × (r ≡ q)
  jump-inj a c r q e = (ap address e, ap memory e)
    where
      address : Stage1 → ℕ
      address (Stage1.jump x y) = x
      address (Stage1.panic x y) = 0

      memory : Stage1 → Ram
      memory (Stage1.jump x y) = y
      memory (Stage1.panic x y) = y

  no_jump : (ty : PanicType) (a : ℕ) (r q : Ram) → ¬ (Stage1.panic ty r ≡ Stage1.jump a q)
  no_jump ty a r q e = ground (arith, e)

  -- Where a command is followed by a jump, it has been answered.
  after_cmd :
      (cmd : ℕ) (ram : Ram) (next : M S Stage1) (s : S) (a : ℕ) (r : Ram) (t : S)
      → modchip_cmd_or_panic bus cmd ram next s ≡ (Stage1.jump a r, t)
      → (is_answered (cmd_answer bus cmd s).0 ≡ true)
        × (next (cmd_answer bus cmd s).1 ≡ (Stage1.jump a r, t))
  unfolding modchip_cmd_or_panic
  after_cmd cmd ram next s a r t e = elim (Bool-cases (is_answered (cmd_answer bus cmd s).0)) [
    | inl y ↦ (y, rw y at e)
    | inr n ↦ absurd (no_jump PanicType.cmd_failed a ram r (ap (λ x. x.0) (rw n at e)))
  ]

  module _ (ram : Ram) (a : ℕ) (placed : Ram) (t : S) where
    choice :
        (c : Bool) (m : M S Stage1) (ty : PanicType) (r : Ram) (u : S)
        → (if c then m else return (Stage1.panic ty r)) u ≡ (Stage1.jump a placed, t)
        → (c ≡ true) × (m u ≡ (Stage1.jump a placed, t))
    choice true m ty r u e = (refl, e)
    choice false m ty r u e = absurd (no_jump ty a r placed (ap (λ x. x.0) e))

    received :
        (size2 : ℕ) (u : S)
        → receive_stage2 bus size2 ram u ≡ (Stage1.jump a placed, t)
        → (a ≡ ee_stage_2_addr)
          × (placed ≡ store_bytes ee_stage_2_addr (modchip_peek_n bus size2 u).0 ram)
          × (bus.peek_u32 (modchip_peek_n bus size2 u).1
              ≡ (crc32 (ram_bytes placed ee_stage_2_addr size2), t))
    unfolding receive_stage2
    received size2 u e =
        let r = choice _ _ PanicType.bad_crc _ _ e in
        let same = jump-inj _ _ _ _ (ap (λ x. x.0) r.1) in
        let crc = (==_iff _ _).0 r.0 in
        (
          sym same.0,
          sym same.1,
          ap (λ (w : ℕ). (w, (bus.peek_u32 (modchip_peek_n bus size2 u).1).1)) (sym crc)
              ∙ ap
                  (λ (q : Ram). (
                    crc32 (ram_bytes q ee_stage_2_addr size2),
                    (bus.peek_u32 (modchip_peek_n bus size2 u).1).1,
                  ))
                  same.1
              ∙ ap (λ (v : S). (crc32 (ram_bytes placed ee_stage_2_addr size2), v))
                  (ap (λ x. x.1) r.1),
        )

    -- The modchip may answer with anything. If stage 1 jumps, then its three commands were answered
    -- OK, the word behind stage 1, of the size that was answered, is its checksum, the jump is to the
    -- second stage, nothing but the received bytes, as many as were answered, is new in memory, and
    -- the word that came after them is the checksum of the second stage as it is in memory.
    pub exec_ps2-IsChecked :
        (s : S) → exec_ps2 bus ram s ≡ (Stage1.jump a placed, t) → IsChecked bus s ram a placed t
    unfolding exec_ps2 fetch_stage2
    exec_ps2-IsChecked s e =
        let first = after_cmd cmd_get_ee_stage1_size ram _ s a placed t e in
        let intact = choice _ _ PanicType.bad_crc ram _ first.1 in
        let second = after_cmd cmd_get_ee_stage2_size ram _ _ a placed t intact.1 in
        let third = after_cmd cmd_get_ee_stage2 ram _ _ a placed t second.1 in
        let end = received _ _ third.1 in
        record {
          answered = (first.0, second.0, third.0);
          intact = intact.0;
          target = end.0;
          stored = end.1;
          checked = end.2;
        }
