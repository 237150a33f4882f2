-- ===== src/Lib.antt =====
-- Verification of JavaScriptOS, an x86-64 kernel in C and C++.
--
-- The parts and how they meet. The loader starts kernel/kernel_main.cpp, which sets up the kernel heap
-- and then waits. The boot code gives physical pages to the page allocator
-- (kernel/memory/pmm.cpp), which the process table takes its kernel stacks from
-- (kernel/process/proc.c); the scheduler (kernel/process/scheduler.c) runs the processes of that
-- table, and an interrupt (kernel/syscall/trap.c) makes a process yield. System calls go through a
-- table of numbers (kernel/syscall/syscalls.c). The kernel heap (kernel/memory/kmalloc.cpp) is a
-- fixed array of its own. The PCI driver reads and writes configuration registers through two ports
-- (kernel/devices/pci/Device.hpp, and kernel/devices/pci.c in C) and enumerates the devices behind
-- them (kernel/devices/pci/HostController.cpp, and kernel/devices/pci.c in C).
--
-- The files, by the part they model:
--   Base and its children     shared: tests, lists, words of 8 to 64 bits and their bits, bytes in memory
--   Boot                      kernel/kernel_main.cpp up to its loop of hlt, kernel/console.cpp
--   Boot.Madt                 kernel/boot/madt.c and the tables of kernel/boot/acpi.h that it reads
--   Memory.Pmm                kernel/memory/pmm.cpp: pmm_free, pmm_free_range, pmm_alloc
--   Memory.Kmalloc            kernel/memory/kmalloc.cpp: kmalloc, kfree and what they call
--   Memory.Kmalloc.Operators  the operators new and delete of that file
--   Process.Table             kernel/process/proc.h, and create_proc of kernel/process/proc.c
--   Process.Scheduler         kernel/process/scheduler.c, as a step relation of several CPUs
--   Process.Trap              kernel/syscall/trap.c, trapframe of kernel/arch/x86/idt.h
--   Process.Syscall           kernel/syscall/syscalls.h and syscalls.c
--   Pci.Address               config_space_address of kernel/devices/pci/Device.hpp
--   Pci.Register              RegisterProxy there, and the registers of kernel/devices/pci.c
--   Pci.HostController        kernel/devices/pci/HostController.cpp
--   Pci.Enumerate             the enumeration of kernel/devices/pci.c
--   Pci.EnableMsix            enable_msix of kernel/devices/pci.c
--   X86.Ioapic                kernel/arch/x86/ioapic.c and ioapic.h
--   X86.Descriptor            kernel/arch/x86/idt.c, tss.c, segmentation.hpp
--   X86.Paging                kernel/memory/vmm.cpp, kernel/arch/x86/paging.h, memlayout.h
--   X86.Paging.Kernel         init_vmm of kernel/memory/vmm.cpp
--   X86.Paging.Layout         the bytes of pte_t of kernel/arch/x86/paging.h
--   Libc.Stdio                libc/stdio.c
--   BufferCache               kernel/buffercache.c and kernel/Buffer.h
--   Libk.Text                 kernel/libk/string.c
--   Libk.Monotonic            kernel/libcppk/memory_resource.hpp
--   Libk.DoublyLinked         kernel/libcppk/list.hpp
--   Libk.Bitset               kernel/libcppk/bitset.hpp, fill of kernel/libcppk/array.hpp
--   Libk.Optional             kernel/libcppk/optional.hpp
--   Pci.Layout                the register unions of kernel/devices/pci/Device.hpp
--   Pci.Bar                   kernel/devices/pci/API.cpp, and the base address registers of Device.hpp
--   Pci.Msi                   the message registers of kernel/devices/pci/Device.hpp
--   Pci.Header                the accessors of kernel/devices/pci/Device.hpp
--   Pci.Capability            the capabilities of kernel/devices/pci/Device.hpp, find_if of kernel/libcppk/algorithm.hpp
--   X86.Lapic                 kernel/arch/x86/lapic.c and lapic.h
--   X86.Timer                 kernel/arch/x86/timer.c and pit.h
--   Filesystem.PathString     kernel/filesystem/PathString.h
--   Devices.Uart              kernel/devices/uart.c and uart.h
-- Each has its theorems in modules below it, and tests in a module Tests.
--
-- How the code is written down. Numbers are natural numbers; where the code has a w-bit integer that
-- can wrap, the remainder by 2 ^ w is written out. A pointer is an address, 0 for null; a pointer into
-- a table is an index. `Option` is `none` where the code has undefined behaviour (an access outside an
-- array) or where the fuel of a loop ran out; each definition says which. `hlt` is an
-- instruction that waits for an interrupt, behind which the code goes on. Fuel: pmm_free_range takes
-- one more round than the range has whole pages, and the enumeration of buses is at most 257 calls deep,
-- one for each of 256 buses and one more, since every call marks a bus that was not marked; the search
-- of kmalloc takes one round for each block that it passes, and sprintbase at most 64 rounds for a
-- number of 64 bits; enable_msix and get_MADT_item take one round for each entry of the list that they
-- walk and one more, and mappages one for each page and one more. The scheduler's step relation has one
-- step for each stretch of code that runs under the lock of the table.
--
-- Not modelled: what is assembly (context_switch, the vector stubs, in and out), the layout given by
-- the linker script, vendored headers (multiboot2.h, errno.h, the ext2 headers), the machinery of
-- coroutines, the interrupt handler of the keyboard, which is empty, and the file system's interfaces,
-- most of which has no bodies yet, the Proxy of the bit set, which does not compile, the shell of
-- user/sh.c, whose system calls do not exist yet, userinit, which uses names declared nowhere,
-- BAR_address and BAR_space_size, which do not compile when instantiated, the AHCI controller, which
-- stands on the result of one of them, and what the 18 bytes that gcc gives an idtdesc mean to the
-- processor. What kernel_main does behind its loop of hlt is never reached. The handlers of system calls, switchuvm and
-- switchkvm, the constants of pcidef.h and the structure of an item of the MADT are used and not
-- defined in the repository; they are parameters.
pub mod Base
pub mod Memory
pub mod Process
pub mod Pci
pub mod X86
pub mod Libc
pub mod BufferCache
pub mod Libk
pub mod Filesystem
pub mod Devices
pub mod Boot
