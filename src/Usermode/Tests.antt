-- ===== src/Usermode/Tests.antt =====
-- The start of a program with a segment.
use tuna_os.Base.{arith}
use tuna_os.Vmm.Tests.{only_root, empty_root-IsTree}
use tuna_os.Elf.Load.{Protects}
use tuna_os.Elf.Tests.{image, machine}
use tuna_os.Usermode.{usermode_exec_elf}
use tuna_os.Usermode.Start.{Enters, usermode_exec_elf-Enters}
use tuna_os.Syscall.Tests.{image_user}

usermode_exec_elf-Enters_example :
    Protects 0x400 machine (usermode_exec_elf image 122 machine).1
    × Enters image 122 (usermode_exec_elf image 122 machine)
usermode_exec_elf-Enters_example =
    usermode_exec_elf-Enters 0x400 image 122 machine (only_root, empty_root-IsTree) image_user
      (omega arith)
