-- ===== src/Lib.antt =====
-- linux_rpg: the kernel of Linux 0.11 (kernel/, mm/, fs/), modelled and verified.
--
-- The program is a small Unix kernel. A table of 64 tasks (kernel/sched.c) is the shared state: the
-- scheduler picks one, wait queues and timers make tasks runnable, the system calls of kernel/sys.c,
-- kernel/signal.c and kernel/exit.c change the caller's credentials and signals and those of other
-- tasks. Memory management (mm/memory.c) counts the physical pages and edits the page tables; the
-- file system (fs/) stands on it: a pipe (fs/pipe.c) is one such page with two indices and a wait
-- queue, and the buffers of fs/buffer.c hold the blocks of the disks. A terminal
-- (kernel/chr_drv/tty_io.c) is three queues of characters between the tasks and a driver, of which
-- the console (kernel/chr_drv/console.c) is one.
--
-- Which file models what:
--
--   Kernel/Task      include/linux/sched.h, include/signal.h: struct task_struct as a record of
--                    records, the table of tasks with its empty slots, the signal numbers
--   Kernel/Sched     kernel/sched.c: schedule() with check_signals (the first loop), scan_all and
--                    recharge (the while loop, pick_loop); `Cpu` holds jiffies, task and current;
--                    a switch is the change of current. Scan, Pick and Signals hold its theorems
--   Kernel/Wait      kernel/sched.c: sleep_on, interruptible_sleep_on, wake_up. A call that sleeps is
--                    cut at its schedule(): the first half returns what its local `tmp` holds, and
--                    the `_end` function is the second half. Wait/Chain: several sleepers
--   Kernel/Timer     kernel/sched.c: add_timer and the timer part of do_timer. The linked list is a
--                    list of relative times and functions. Timer/Due: the times that it stands for
--   Kernel/Mktime    kernel/mktime.c: kernel_mktime. Mktime/Calendar: the Gregorian calendar
--   Kernel/Cred      kernel/sys.c: setreuid, setregid, setuid, setgid. Cred/Privilege: what they allow
--   Kernel/Signal    kernel/signal.c: the masks, signal, sigaction, do_signal with the frame that it
--                    pushes. Signal/Handlers: its theorems
--   Kernel/Kill      kernel/exit.c: send_sig, sys_kill, kill_session. Kill/Sent: which tasks they reach
--   Kernel/Alarm     kernel/sched.c: sys_alarm, sys_nice. Alarm/Left: its theorems
--   Kernel/Session   kernel/sys.c: setpgid, setsid, getpgrp, umask, brk. Session/Groups: leaders
--   Kernel/Exit      kernel/exit.c: waitpid, tell_father, the children of do_exit. Exit/Wait: the scan;
--                    Exit/Reap: how a round ends
--   Kernel/Fork      kernel/fork.c: find_empty_process. Fork/Fresh: the number and the slot it finds
--   Kernel/Elevator  kernel/blk_drv/ll_rw_blk.c, blk.h: add_request, the search of make_request.
--                    Elevator/Order: the order of the queue
--   Kernel/Console   kernel/chr_drv/console.c: con_init and con_write on a record of the screen, with the
--                    video memory as words. Console/Area: the bounds of the screen; Edit, Write and
--                    Shown: the operations; Start: con_init
--   Kernel/Tty       kernel/chr_drv/tty_io.c, include/linux/tty.h: the queues and copy_to_cooked.
--                    Tty/Line: a queue as a list; Edit and Cooked: the editing of the line;
--                    Tty/Write: tty_write; Print: what it queues; Screen: with the console behind it
--   Kernel/Vsprintf  kernel/vsprintf.c: Number has skip_atoi and number; Digits: printing and
--                    reading back; Total: the whole of vsprintf ends
--   Mm               mm/memory.c: mem_map, get_free_page, free_page, put_page, un_wp_page,
--                    do_wp_page, write_verify, get_empty_page, mem_init. Mm/Pages, Mm/Entries,
--                    Mm/Tables and Mm/Cow hold the theorems
--   Fs/Pipe          fs/pipe.c: read_pipe, write_pipe. Pipe/Bounds: the bytes of a pipe as a list;
--                    Pipe/Queue: reading against writers
--   Fs/Buffer        fs/buffer.c: the hash queues, the free list, get_hash_table, getblk. Buffer/Alone:
--                    what a cache is; Take: a buffer is taken; Sleeps, Getblk: the calls that sleep
--   Fs/Bitmap        fs/bitmap.c: the block bitmap, new_block, free_block. Bitmap/First: the search;
--                    Bitmap/New: the block that is found
--   Fs/Bmap          fs/inode.c: _bmap, bmap, create_block. Bmap/Tree: the blocks of a file as a tree;
--                    Grow, Idle and Alloc: one block more; Offset and Create: by the place
--   Fs/Namei         fs/namei.c: permission, match, find_entry, get_dir, dir_namei, namei. Namei/Match and
--                    Find: the entry that is found; Balance: the reference counts
--   Fs/Files         fs/fcntl.c, fs/open.c: dupfd, sys_dup, sys_dup2, sys_close. Files/Lowest: the
--                    descriptor that is found
--   Strings          lib/string.c on a memory of bytes. Moves: memmove; Texts: strings, strlen, strcat;
--                    Compare: strcmp; Bounded: strncat; Span: strspn, strcspn, strpbrk;
--                    Search: strstr; Token: strtok
--   Prelude          shared names, Boolean tests, integers, lists, signal masks, and a ring of bytes
--
-- Numbers are natural numbers. A C int that can be negative is an integer of Prelude/Int; a store in
-- an unsigned short or a 32-bit word takes the value modulo 2 ^ 16 or 2 ^ 32. Signal masks, 32 bits
-- in the source, are functions from bit numbers to Booleans. Physical memory is a function from
-- addresses to words, and mem_map one from page numbers to counts.
--
-- Loops that the source bounds by the table or by a count are structural. Some take fuel: the while
-- loop of schedule, where two rounds are always enough when every priority is positive; the loops
-- of the pipe, where one more than the bytes asked for and the events together is enough; those of
-- the line discipline, where one more than the characters in the queue is; the search for a process
-- number, where one more than the tasks is; and vsprintf, where one more than the length of the
-- format is. A pipe call that sleeps takes the next event of its environment (what the other tasks do to the pipe until it
-- runs again), and ends as `asleep` when there is none; waitpid does the same with the table, and
-- getblk with the buffer cache, where one round more than there are events is enough.
--
-- Not modelled: the assembly (boot/, kernel/system_call.s, kernel/asm.s, mm/page.s, the keyboard and
-- serial handlers), the drivers of disks, floppies and the serial line, traps, printk and panic
-- (a panic is a result), since they are hardware access; the system call stubs of lib/; memcmp; interrupts
-- between the statements of a routine, which cli() excludes where it matters. The ports of the
-- display are not part of the console's state, and the driver that a terminal writes to is an argument
-- of copy_to_cooked and tty_write. What the console answers to ESC Z is a list of its own, and does
-- not go through the read queue. The rest of kernel/, mm/ and fs/, tty_read, tty_ioctl, the drivers
-- behind the block request queue and malloc are not modelled; iget, the contents of the directories and
-- the mount table are arguments of namei.
pub mod Prelude
pub mod Kernel
pub mod Mm
pub mod Strings
pub mod Fs
