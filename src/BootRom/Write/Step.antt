-- ===== src/BootRom/Write/Step.antt =====
-- What the write handlers share: the byte counter, the switch to another handler, and the bytes
-- of a word that arrive one at a time.
use fruitchip.Common.{ℕ, List, [], ◌+◌, ◌==◌, if◌then◌else◌, u32, byte_of}
use fruitchip.BootRom.Defs.{Call, Handler, Chip, Effect}

-- `cmd_byte_counter++`.
abbrev pub count_byte : Chip → Chip
count_byte s = record s { cmd_byte_counter = u32 (s.cmd_byte_counter + 1) }

-- `write_handler = handler`.
abbrev pub goto : Handler → Chip → Chip
goto handler s = record s { write_handler = handler }

-- A state with no call made, and the exit to the idle handler after some calls.
abbrev pub wait : Chip → Effect
wait s = (s, [])

abbrev pub finish : Chip → List Call → Effect
finish s calls = (goto Handler.idle s, calls)

-- A handler with one byte left: the last byte of its command.
abbrev pub on_last_byte : ℕ → Chip → ℕ → (Chip → Effect) → Effect
on_last_byte command s w act =
    let c = count_byte s in
    if c.cmd_byte_counter == 3
    then (if w == byte_of command 3 then act c else finish c [])
    else finish c []
