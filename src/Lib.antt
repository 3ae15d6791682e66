-- ===== src/Lib.antt =====
-- The preparation scripts of capybaragram-build, and the small programs beside them.
--
-- The repository prepares pinned checkouts of the Telegram clients: each script under ci/ reads the
-- files that it names, compares their hashes with the reviewed ones, replaces reviewed pieces of text,
-- compares the hashes of the results, and writes only then. Beside the scripts stand a check of the
-- application credentials, an inventory of the network library's dependencies, the scoring of speech
-- recognition with the life cycle of its model, and three scripts that drive a built client on an
-- emulator.
--
-- What models what:
-- - Prelude: the shared names. Prelude/Outcome has Result, a value or the exception raised; a raise is
--   an err with the source's message, and do blocks follow the order of the source's statements.
-- - Text: Python's str and bytes as lists of code points, with count, replace, split, index, find,
--   splitlines, strip, utf-8; Text/Occurs, Split, Replace, Equal, Slice and Listed have their lemmas.
-- - Checkout: the source tree as a script sees it, read through pathlib and git.
-- - Patch: the helper replace, replace_once or once of every script. Patch/Settled asks when a later
--   edit leaves an earlier one alone, Patch/Unique when an anchor has one place.
-- - Folders: the plan and the command line of ci/folders/prepare_*.py; its children are one script each:
--   AndroidFolders, AndroidCallbacks, WindowsFolders, Bulk, Reconcile, Mutations.
-- - Accounts: Windows and its Prepare for ci/accounts/windows_accounts_patch.py; Android, its Selector,
--   Intents and Prepare for ci/accounts/android_accounts_patch.py; Binding for
--   ci/accounts/notification_binding.py.
-- - Hosts: the plan of ci/windows-archive/prepare_windows_archive.py and
--   ci/windows-connection-native/prepare_windows_connection.py, in Archive and Connection; the
--   transformations of ci/windows-notes/windows_notes_patch.py, ci/windows-voice/prepare_windows_voice.py and
--   ci/windows-read-mode/prepare_windows_read_mode.py in Notes, Voice and ReadMode. Each has its replacements in Edits.
--   Hosts/Applied specifies the tree that the archive and connection scripts promise.
-- - Credentials: ci/api_credentials.py.
-- - Inventory: the graph walk, and in Members the archive scan, of
--   ci/windows-connection-notices/run_inventory.py.
-- - Speech: words and edit_count of ci/speech-vosk/worker.py; Lifecycle for the two cycles of
--   ci/speech-vosk-source/lifecycle_worker.py.
-- - Apk: require_disabled_flag of ci/collect_android.py, with its regular expression.
-- - Device: what the emulator scripts share, as a monad of outcomes and traces: run, device, the
--   exceptions with try, except and finally; Screen has the attributes of a hierarchy and tap, Bounds the
--   pattern of bounds, Snapshot the function snapshot. Emits, Returns and Counts have the lemmas on traces.
-- - Smoke: the emulator scripts, with Boot, Start and Finish for the parts that they share. Sandbox is
--   ci/android_sandbox_smoke.py, with Launch, Actions, Number, Code and Account in the order of the file;
--   Client, with Launcher and Intro, is ci/android_client_smoke.py; Candidate, with Controls, is
--   ci/android_candidate_runtime.py. Untyping chooses between the last two.
-- - Tests: theorems at concrete inputs.
--
-- How the parts meet: a script's plan reads a Checkout, decodes, applies its edits by Patch and encodes;
-- run is the command line, a function from the tree before to the tree after. An emulator script reads
-- a hierarchy by Device.Snapshot, chooses a node by Device.Screen, and acts by device; each call, sleep,
-- note of the result and file is an event of the trace, the latest first.
--
-- Parameters: sha256 stands for hashlib.sha256(raw).hexdigest(), lower, is_letter, is_number and is_word
-- for the Unicode tables, decode_utf16 for the codec, nt for os.name, and the fields of Checkout for
-- what the file system and git answer. Manifests, which are JSON files, are arguments. A World answers
-- each command to the device, in any way and by everything done before, and has the clock and the XML
-- parser; a Setup has the environment of a script; a Library answers for the native speech library.
--
-- Fuel: the graph walk is on fuel, one more than the number of selected dependencies; Inventory/Fuel
-- has the theorem that this is enough. decimal is on fuel as large as its number. The wait for the boot
-- has 62 rounds: a round ends with a sleep of 5 seconds, and the time limit is 300; Smoke/Boot/Ends has
-- the theorem. snapshot has the twelve attempts of the source, and the chunks of the samples are on
-- fuel as large as their length. The clock counts nanoseconds.
--
-- Dictionaries keep the order of insertion as lists; a table that the source builds from unique keys is
-- an association list. The message of a refusal is a constructor's argument, without its formatting.
--
-- Not modelled: the scripts that drive builds and other processes, the XML and regular-expression
-- scripts of the Android baseline, the C++, Java and Rust payloads, the copied upstream library, and the
-- scripts for brand, appearance and capture, and for the Android components. chmod of the written credential cache is left
-- out, and so are printing and argument parsing.
pub mod Prelude
pub mod Text
pub mod Patch
pub mod Checkout
pub mod Device
pub mod Apk
pub mod Smoke
pub mod Folders
pub mod Accounts
pub mod Speech
pub mod Credentials
pub mod Inventory
pub mod Hosts
pub mod Tests
