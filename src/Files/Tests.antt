-- ===== src/Files/Tests.antt =====
-- The table of open files at concrete inputs.
use xv6_learn.Common.{refl, arith}
use xv6_learn.Files.{fd_inode, filewrite}
use xv6_learn.Files.Sample.{counting, file}
use xv6_learn.Files.Chunks.{WriteEnd, filewrite-WriteEnd}

filewrite-WriteEnd_example :
    WriteEnd counting (file fd_inode 1) 64 7000 0 (filewrite counting (file fd_inode 1) 64 7000 0)
filewrite-WriteEnd_example =
    filewrite-WriteEnd counting (file fd_inode 1) 64 7000 0 refl refl (omega arith)
