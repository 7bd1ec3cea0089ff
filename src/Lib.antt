-- ===== src/Lib.antt =====
-- A model of tools/decb.py, the Disk BASIC image tool for the Color Computer, and of the lookups of
-- tools/symread.py, and their theorems.
--
-- The program works on a disk image, one bytearray, of which it selects a drive: `base` is the
-- drive's first byte and `tracks` its length. A drive has granules of nine sectors on all tracks but
-- track 17, which holds the granule allocation table in sector 2 and the directory in sectors 3 to
-- 11. A command parses its paths, loads the image, finds or makes a directory entry, follows or links
-- a chain of granules in the table, and saves the image. The payload of a file may be translated on
-- the way in or out: BASIC text to tokens, line endings, segmented binaries, S-records.
--
-- Which file models which part of tools/decb.py:
-- - Error: `die` and a failing index are values of `Result`.
-- - Image: the bytearray, a size and a function from offsets to bytes, with indexing and slicing.
-- - Geometry: the constants and offset functions, `num_granules`, `disk_tracks`.
-- - Gat: `chain_granules`, `entry_geometry`, `find_free_granules`, `free_chain`, the linking loop of
--   `write_file`. Gat/Chain describes a chain in the table apart from the code.
-- - Names: `encode_name`, `entry_to_name`; a name is its code points, all of them Latin-1.
-- - Directory: `iter_dir_entries`, `find_entry`, `find_dir_entry`, `find_deleted`.
-- - DiskFile: `read_entry_payload`, `read_file`, `write_file`.
-- - View: the drives that theorems speak of. A drive has 18 to 97 tracks: from 98 tracks on a granule
--   number can be 0xC0 or more, and a link to it is read as a terminator.
-- - Dskini: the drive that `cmd_dskini` writes.
-- - Basic: `tokenize_cocobas`, `detokenize_cocobas` and their tables.
-- - Eol: `native_to_decb`, `decb_to_native`.
-- - Segments: `parse_decb_segments`, `binconcat`, `srec_encode`.
-- - Commands: what the commands do to an image that is loaded: `cmd_kill`, `cmd_rename`, `cmd_attr`,
--   `cmd_free`, `cmd_stat`, `cmd_wipe`, `recover_deleted`, `load_disk`, `cmd_rawpack`, `cmd_check`.
-- - Text, Paths: `split_image_path`, `parse_drive_suffix`, `normalize_disk_arg`, `parse_dump_where`,
--   with what they use of Python's `int`, `partition` and `isdigit`.
-- - Host: the host's files, a parameter of the commands, and the monad of commands that may fail. A
--   write that breaks off leaves a part of the bytes in the file, since opening it has emptied it.
-- - Copy: `cmd_copy`, its options, its sources and its targets.
-- - Drive: well-formed drives, the contents of a drive as a map from names to files, and what writing,
--   killing and renaming do to both, apart from the code.
-- - Handlers: `cmd_kill`, `cmd_attr`, `cmd_rename`, `cmd_wipe`, `cmd_free`, `cmd_stat`, `cmd_list`,
--   `cmd_dump`, `cmd_check`, `cmd_dir`, `cmd_dskini` and `cmd_copyall` from their arguments on.
-- - Symbols: `load`, `SymbolFile.sym` and `SymbolFile.whereis` of tools/symread.py, on the lines of a
--   symbol file.
-- - Base: names, Boolean tests and lists over the native numbers.
-- The modules called Tests hold runs at concrete inputs.
--
-- Loops that are not structural run on fuel. A chain walk has `total_grans + 2` rounds, since
-- the code stops when more than `total_grans` granules are collected; `free_chain` has
-- `total_grans + 1`, as its counter says; the parser of binaries takes five bytes a round, the
-- tokenizer and detokenizer one byte at least, and have the length of the input; the search for runs
-- passes an address a round and has 0x10001 rounds; `check` walks as `chain_granules` does; `dir`
-- counts at most `total_grans + 1` granules; a line number has five digits.
--
-- A drive suffix with a negative sector offset can place the base before the image. `load_disk`
-- returns it as the program does; the commands are modelled on a base that is not negative, and stop
-- with an error of the model's own, `negative_base`, where the program counts from the image's end.
--
-- Not modelled: the layout of printed reports, notes and the warning on standard error (what a report
-- shows is a value), the arguments of rawpack, the help texts and dispatch of `main`, and in symread
-- the check of digests, which rests on the build's files, and the .lines file. The other tools
-- (gensym.py, auditreport.py, gen_mnemonics.py) and the patches of third-party programs are not
-- modelled either.
pub mod Base
pub mod Error
pub mod Image
pub mod Geometry
pub mod Gat
pub mod Names
pub mod Directory
pub mod DiskFile
pub mod Dskini
pub mod View
pub mod Basic
pub mod Eol
pub mod Segments
pub mod Text
pub mod Paths
pub mod Host
pub mod Copy
pub mod Commands
pub mod Drive
pub mod Handlers
pub mod Symbols
