-- ===== src/Lib.antt =====
-- fruitchip: a modchip that sits on the boot ROM's bus of a console. Its firmware watches the bytes
-- that the console reads and writes; a write sequence is a command, which the firmware answers by
-- driving the bus.
--
-- Parts, and where they are modelled:
--
--   Common      shared tests, lists and machine words. A byte or a word is a natural number; every
--               sum and shift that can wrap has its `% 2 ^ w` written out.
--   Modchip     fruitchip-include/modchip/cmd.h, errno.h, update.h: the words of the protocol.
--   Board       fruitchip-fw-board/board_configuration.cmake: the flash layout; a record for the pins
--               and image sizes that a board's file and the build set.
--   Hal         the SDK's flash functions and the checksum hardware, as a record of functions, with
--               their documented behaviour as a record of laws. The flash window is a function from
--               addresses to bytes.
--   Crc32       fruitchip-include/crc32.h.
--   Apps        fruitchip-fw/include/apps.h: the table of the apps partition.
--   Settings    fruitchip-fw/src/settings.c: the setters, which list the writes that they make, and
--               in Startup the start. The wear_leveling library below them is another project's: a
--               record of its functions, with laws that say what they do to the stored bytes. What its
--               writes do to the flash is a function of Hal, which keeps to the settings partition.
--   BootRom     fruitchip-fw/src/boot_rom. Defs has the state: the counter and the handler variable of
--               handler.c, the statics of each file, the settings, the flash and the watchdog's
--               scratch register. Write has one function per write handler, named as in the source;
--               a function returns the new state and the calls that it makes of data_out.c, the store
--               and the SDK, in order. Write.Idle calls them through `write_handler`, one byte after
--               the other, as the main loop of fruitchip-fw/src/main.c does (`write_bytes`). Commands
--               follows whole commands from their first byte to their answer; Invariants is about any
--               bytes. Read has the handlers of the bytes that the console reads, with a state
--               of their own (`Reader`): the flag that disables the hook is in both states.
--   Bootloader  fruitchip-fw-bootloader/src/main.c: the update is the list of its flash calls, in
--               order, each computed on the memory that the ones before it leave; a power loss keeps
--               a beginning of that list. The loop over the sectors has 161 rounds, one for each
--               sector of the partition but the first.
--   Host        fruitchip-include/modchip/*.h: the bytes that the console's functions poke (Requests),
--               and the functions over a record of the bus's loads and stores (Bus): a state monad, a
--               pointer that is written through being a value that goes in and comes out. The loop that
--               waits for a busy modchip has no bound in the source: it takes fuel, and ends for any
--               fuel above the number of busy answers.
--   Link        the console's bus and the firmware put together: a store is a byte for the write
--               handlers, a load takes the next byte of what fruitchip-fw/src/boot_rom/data_out.c sends
--               for the calls of a handler (`call_bytes`). A record `World` has what the model leaves
--               open: the images' bytes, and how long the busy code is sent.
--   Fwfs        fruitchip-fwfs/src/fwfs.c: the console's file system driver, over the bus of Host. The
--               state has the eight handles and whether the semaphore is taken; a file's `privdata`
--               is the number of a handle. A negative `int` is its bit pattern. Content and Open show
--               what a file is on any bus that serves an entry (a record of laws, `Serves`), and
--               Link.Files that the firmware is such a bus.
--   Loader      fruitchip-loader/ee: what runs on the console before the menu, over the bus of Host and
--               a memory that is a function from addresses to bytes. Stage1 and Stage2 are the two
--               stages, Elf the loading of a program: Place says what the loop does, Segments where
--               each byte ends. Link.Loader puts them together with the firmware.
--   Menu        fruitchip-menu/src/components/list.c: Navigation is a list with its highlight and the
--               range that is drawn. fruitchip-menu/src/apps.c: AppsList is the boot list from the
--               index of the apps; WideText is the text of an item, of fruitchip-menu/lib/wstring.h, with
--               mbtowc and the memory that malloc returns as parameters. fruitchip-menu/src/scene/settings/update: Checking is the check of
--               an update file, given by what each of its reads returns; Writing is the writing of an
--               update, over a record of the calls that it makes of fruitchip-include/modchip/flash.h.
--               What the checks need of the modchip's partition sizes and pins are arguments. The loop
--               over the sectors takes fuel; more than the update has bytes is enough.
--               PinConfig is fruitchip-menu/src/pin_config.c with fruitchip-include/binary_info_parser.h:
--               the loop over a mapping table takes fuel, and more than it has rows is enough;
--               Labels has the entries of an update by the texts of their labels.
--               State has what the scenes share. BootScene is fruitchip-menu/src/scene/boot_list.c, and
--               BootScene.Run any order of its events: inputs, ticks, alarms, USB events and paints.
--               SettingsScene and OptionsScene are settings.c and boot_options.c beside it. A handler
--               returns the calls that it makes; a text is a value, and what the modchip answers to a
--               setting is an argument.
--   Tests       a simulated machine, and the theorems applied on it.
--
-- In BootRom a call of data_out.c is a value in the answer; the bytes that it puts on the bus are
-- in Link, and the DMA and PIO set-up that moves them is not modelled. `bool` statics of the
-- source are Boolean, also where it stores a byte in one; `printf`, most of the status LED and the
-- second core's lockout are left out, since they change no data. The debug build's messages do not
-- exist here. Every function is total, by structural recursion on lists and counts. Fuel is the
-- round count of the bootloader's loop, the console's patience with a busy modchip, and the rounds
-- of the menu's loops over the sectors, over the highlight, where one step is enough, and over a
-- mapping table.
--
-- Not modelled: the scenes of the menu that only show a text, drawing and the stack of scenes, what the
-- console's kernel does for the loader, the LED driver, the libraries under fruitchip-fw/lib, which are
-- other projects', and the PIO programs.
pub mod Apps
pub mod Board
pub mod BootRom
pub mod Bootloader
pub mod Common
pub mod Crc32
pub mod Fwfs
pub mod Hal
pub mod Host
pub mod Link
pub mod Loader
pub mod Menu
pub mod Modchip
pub mod Settings
pub mod Tests
