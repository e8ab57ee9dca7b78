-- ===== src/Lib.antt =====
-- A verification library for the Jnix kernel: its memory allocators, its text consoles, its
-- threads, its files, its keyboard, its network code and card, its string functions and its
-- formatting of text, with the theorems that say what their callers may rely on.
--
-- The parts and their files.
-- * Mm/Page is mm/page.c and include/system/page.h. `Ram` is the table `mem_map` with the memory
--   of the pages; `get_free_page` and `free_page` are the functions of that name.
-- * Mm/Kmalloc is mm/kmalloc.c, which takes its pages from mm/page.c. `Heap` is `bucket_dir` and
--   `free_bucket_desc` over a `Ram`. `kmalloc`, `kfree`, `kzmalloc` and `init_bucket_desc` are the
--   functions of that name, and the loops of the first two are functions of their own (`find_dir`,
--   `has_free`, `carve`, `find_owner`, `find_page`). Mm/Kmalloc/Valid has the invariant, relative to
--   a set of live objects; Bucket and Slots have the invariant of one page of objects.
-- * Mm/Paging is the page faults of arch/i386/page.c, `do_wp_page` and `do_no_page`, whose tables
--   are words in the memory of a `Ram`.
-- * Kernel/Tty is kernel/tty.c and include/system/tty.h: one console and the controller of the
--   display. Kernel/Tty/Table is the table of consoles, created by `init_tty`, and the operations on
--   its entries.
-- * Kernel/Thread is the ring of threads of kernel/thread.c, with the choice of kernel/schedule.c:
--   `thread_create` and `schedule`, without registers. Kernel/Thread/Turns says who comes when.
-- * Net/Arp is the hash map of net/arp.c that keeps hardware addresses. Net/Arp/Lookup states its
--   operations against a finite map. Net/Resolve is the rest of that file: `arp_send`, `arp_rcv` and
--   `arp_find`.
-- * Net/Device is `struct net_device` of include/net/netdevice.h: the functions that a driver
--   fills in are the fields of a record, the parameter `dev` of the network code, over the driver's
--   state.
-- * Net/Bytes is include/net/net.h, the order of bytes, and Net/Packet reads fields of a packet.
--   Net/Ip is the header of include/net/ip.h and its checksum in net/ip.c, Net/Ip/Send is `ip_send`
--   with its fragments, Net/Ip/Address is `inet_aton`, and Net/Receive `ip_rcv`, with
--   `reveice_callback` of net/netdevice.c. Net/Icmp and Net/Udp are net/icmp.c and net/udp.c.
--   Net/Receive/Delivery follows a packet from `ip_send` on one machine to the protocols on another.
-- * Net/SkBuffer is the receive queue of net/skbuffer.c: `skb_recv_push` and `skb_recv_shift` on a
--   store of buffers. Net/SkBuffer/Queue says which list of buffers the queue holds.
-- * Clib/Strings is lib/string.c: strcmp, memcmp, strchr, strcspn, strncpy and memcpy on lists of
--   bytes. Compare, Search and Copy say what they do to strings that end in 0.
-- * Clib/Numbers is `number`, `skip_atoi`, `_atob` and `atob` of lib/stdio.c, with `itoa` of
--   lib/stdlib.c in Hex. Clib/Format is `vsprintf` and `printk`, by the parts of a directive:
--   `take_flags`, `take_width`, `take_precision` and `put_conversion`. `printk` writes to the
--   consoles of Kernel/Tty.
-- * Fs is fs/file_op.c, with the file systems of fs/rootfs/super.c and fs/devfs/super.c that it
--   calls through tables of functions. Fs/State has the tables and the types of include/fs/fs.h:
--   pointers to entries, inodes and descriptors are positions. Fs/Path is `lookup`,
--   `get_parent_dir_entry` and `namei`; Fs/Tree is `sys_mkdir`, `sys_mount`, `sys_stat`,
--   `sys_chroot` and `sys_chdir`; Fs/Files is `sys_open`, `sys_close`, `sys_dup`, `sys_lseek`,
--   `sys_read`, `sys_write` and `sys_getdents`. Fs/Files/Counts has the invariant of the
--   descriptors.
-- * Drivers is drivers/i386/keyboard.c and include/drivers/i386/keyboard.h. Drivers/Inbuf is the
--   ring of scan codes (`put` is what `keyboard_handler` does with a byte), Drivers/Ports the lamps
--   (`set_leds`), Drivers/Keys and Drivers/Keymap the tables, Drivers/Keyboard the steps of
--   `keyboard_read` and `handle_tty`, and Drivers/Keyboard/Read the loop itself, with
--   `keyboard_handler` and `keyboard_init`. What is typed goes to the consoles of Kernel/Tty.
-- * Drivers/Nic is the network card of drivers/i386/am79c793.c: `send`, `receive` and
--   `am79c_interrupt_handle` on the two rings of descriptors. Drivers/Nic/Start is `am79c793_probe`
--   and `init`. The record `am79c793` is the device that the network code is given, and
--   Drivers/Nic/Bursts says when it takes several frames in a row. What `receive`
--   hands to `skb_recv_push` is kept as the list of the frames, which Net/SkBuffer holds as a queue.
-- Prelude has the names and lemmas that the parts share: Boolean tests on numbers, C arrays as
-- lists, the results of code that may stop, and 32-bit arithmetic.
--
-- How the code is modelled. Code that may stop returns a `Run`: a value, a panic, a fault (an
-- access through a null pointer or outside an array), or `stuck`, where a loop has used up its
-- rounds. Unsigned arithmetic on 32 bits wraps around; a 16-bit field is taken modulo 2 ^ 16.
-- An int is the 32 bits of it, and wraps around, also where C leaves that open: so do the width and
-- the precision of a directive in `number` and `vsprintf`, of which Clib/Numbers/Moderate gives the
-- range where they do not. An `off_t` is unsigned, as include/sys/types.h has it. The
-- memory of pages is a function of the address, read and written in aligned words.
--
-- Seven loops take rounds. The first is `follow`, the scrolling of `console_out_char`. It is given
-- one round more than the address of the cursor: every round but the last moves the window down by
-- a row, and the window is above the cursor as long as the loop runs. `keyboard_read` is given one
-- round more than there are bytes in the buffer, which is enough from an empty buffer, and
-- `follow_mounts` one more than there are directory entries, so that it is stuck only on a ring of
-- mounts. `vsprintf` has one more than its format has bytes, which is always enough, and `convert`
-- 32, one for each bit of an int. `_atob` calls itself no deeper than twice. The loop of `ip_send`
-- has one more than there are bytes, of which each round takes some, and `receive` is given one
-- more than there are descriptors before one that the card holds. The loops of
-- Drivers/Ports that wait for the keyboard controller run along the list of what its ports answer,
-- and are stuck where it ends.
--
-- What is not modelled. Interrupts are not: `cli` and `sti` have no counterpart, and each
-- operation runs by itself. Bucket descriptors are records in the chains and not words of the
-- pages they are kept in; of those pages only the addresses are used. The entries of the address
-- map are not objects of the allocator: allocating one is taken to succeed. Printing of messages
-- is left out. Of the file system, allocation of entries and super blocks succeeds, the write of a
-- descriptor's data is a number of bytes, and the `lookup` of both file systems leaves its result
-- as it was. A write through a pointer into the frame of a call that has ended is a fault. What a
-- card answers at its ports is a parameter, and the walk over the PCI bus is left out. `copy_page`
-- is left out, and the flush of the processor's cache of pages. The other parts of arch/, those
-- that start the kernel and those in assembly are not modelled, and neither are the registers of
-- threads, `sys_fork`, and `vsscanf` of the C library. Allocating a packet succeeds.
pub mod Prelude
pub mod Mm
pub mod Kernel
pub mod Net
pub mod Clib
pub mod Fs
pub mod Drivers
