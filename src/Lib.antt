-- ===== src/Lib.antt =====
-- Computer Systems Engineering: a verification of the adventure game of mp2 and of its controller.
--
-- The program is a game that runs in VGA mode X. mp2/world.c keeps the rooms, the objects in linked
-- lists and the player's flags, and executes the commands; mp2/adventure.c has the event loop,
-- which takes a command in each tick from mp2/input.c, moves the view or calls the world, and
-- draws. The input is the keyboard and a controller with buttons and LEDs, behind the line
-- discipline mp2/module/tuxctl-ld.c and the driver mp2/module/tuxctl-ioctl.c. mp1 is an earlier
-- game.
--
-- World models mp2/world.c. World.State has the file-scope variables as one record, where a pointer
-- into an array is an optional index, and the computations over it, in which `none` is a fault:
-- NULL is followed, or a walk along a list does not end. World.Ids has the enumerations of rooms,
-- objects and flags. World.Objects has the functions on the lists, such as `remove_object` and
-- `insert_object`, with the proofs that they are operations on sequences below it:
-- World.Objects.Holds says which sequences a world has. World.Motion and World.Commands have the
-- motions and `typed_cmd_buy` to `typed_cmd_wear`. World.Validity says when a world is well formed,
-- World.Game takes the commands together, and World.Build has the tables and `build_world`, with
-- reading a photo from its file as a parameter.
--
-- Adventure models mp2/adventure.c: the view and its motions (View), the ticks (Clock), the reading
-- of a typed line (Parser), `sanity_check` (Sanity), `game_loop` with `handle_typing` (Loop), and
-- `main` with its panics (Main), where the answers of pthread_create and of the system calls are
-- arguments. Input models mp2/input.c: the state machine and the buttons of `get_command`
-- (Keyboard), the result of `init_input` (Terminal), and the argument that `display_time_on_tux`
-- makes (Timer).
--
-- Photo models mp2/photo.c: its structures (Types), `fill_horiz_buffer` and `fill_vert_buffer`, the
-- callbacks that give a line of a room with its objects (Lines), the palette and the coding of the
-- pixels by two levels of an octree (Octree), and the functions that read a file, with `prep_room`
-- (Read). Modex models mp2/modex.c: the build buffer with `set_view_window`, `draw_horiz_line` and
-- `draw_vert_line` (Window, and Pixels for the place of each pixel), the ports and the memory of
-- the VGA (Vga), `set_mode_X` and the fences (Setup), and `show_screen` (Screen). Adventure.Drawing
-- puts the motions of the view, the window, the lines and the display together, with the callbacks
-- that Photo.Lines gives for a room. An address is a number: the array `build` begins at 2 ^ 31, so
-- that img3_off, which can be negative, is kept as a number as well. Memory is a function from
-- addresses, so that an access outside an array is one to the memory around it. In Photo, qsort is
-- a parameter that permutes the nodes, and the answers of fopen and of malloc are arguments.
--
-- Text models mp2/text.c: the table `font_data` (Font) and `text_to_graphics`, with the buffer that
-- it paints (Painted) and the string that it shows (Strings). It reads bytes before the typed text
-- and behind the message, which are arguments. Adventure.StatusBar is its call in `game_loop`, up to
-- `print_status_bar`.
--
-- Tux models mp2/module: the op-codes of mtcp.h (Protocol), the circular buffers (Ring), the
-- packets that `tuxctl_ldisc_data_callback` finds (Framing), and the functions of both files over
-- one state (Driver). The serial driver's methods `write_room` and `write`, and copy_to_user, are
-- outside the repository: the answers of the first and of the last are parameters, and what the
-- second is given is recorded.
--
-- Numbers are natural numbers, with the wrap-around of 32-bit and 16-bit words written out where a
-- value can leave its range. rand() is a stream of numbers in the world. A walk along a room's list
-- has fuel for 21 steps: a list of distinct objects has at most 20, and the theorems on the walks
-- show that this is enough for every well-formed world. The loop that advances the tick has its
-- fuel as an argument. The walk of the other loops is along the bytes or the keys that they read.
--
-- Not modelled: going back to text mode, and mapping the video memory; threads, locks and the
-- helper thread of the status message; the settings of the terminal; the cleanups; the converters;
-- and mp1.
--
-- Base has what the modules share. Examples has runs at concrete inputs.
pub mod Base
pub mod Adventure
pub mod Examples
pub mod Input
pub mod Modex
pub mod Photo
pub mod Tux
pub mod Text
pub mod World
