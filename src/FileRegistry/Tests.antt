-- ===== src/FileRegistry/Tests.antt =====
-- A list of one file index, and what the theorems on the list say of it.
use vlbi_streamer.Base.{[], ◌∷◌, some, true, false, arith}
use vlbi_streamer.FileIndex.{AfiStatus}
use vlbi_streamer.FileIndex.Tests.{two_files}
use vlbi_streamer.FileRegistry.{Files, Memory, afi_add, find_by_name}
use vlbi_streamer.FileRegistry.Names.{IsRegistry}
use vlbi_streamer.FileRegistry.References.{Joined, afi_add-Joined, refs}

abbrev memory : Memory
memory = record { index_at = some 9; name_copied = true; files_given = true }

abbrev registry : Files
registry = two_files ∷ []

abbrev as_sender : AfiStatus
as_sender = record { record_bit = false; send_bit = true }

registry-IsRegistry : IsRegistry registry
registry-IsRegistry = (omega arith, tt, tt)

afi_add-Joined_example : Joined registry "b" (afi_add memory registry "b" 0 as_sender 100)
unfolding refs find_by_name
afi_add-Joined_example =
    afi_add-Joined memory registry "b" 0 as_sender 100 registry-IsRegistry
      ((λ e. omega (arith, e)), tt) (omega arith)
