-- ===== src/Loader/Copy/Tests.antt =====
-- A text section of 100 bytes from the file and a zeroed data section of 50.
use kobox.Prelude.{List, arith, length-replicate, replicate, zero, ℕ}
use kobox.Loader.Layout.{gs_size}
use kobox.Loader.Layout.Tests.{two_sections, two_places, two_laid, two-IsModest}
use kobox.Loader.Copy.{copy_sections}
use kobox.Loader.Copy.Bytes.{Safely}
use kobox.Loader.Copy.Contents.{IsCopied}
use kobox.Loader.Copy.Loaded.{zeroed_image, copy_sections-IsCopied}

abbrev file : List ℕ
file = replicate 200 7

copy_sections-IsCopied_example :
    Safely
      (copy_sections 65536 file 0 0 two_sections 2 0
        (zeroed_image 5000 (replicate gs_size 0) two_places))
      (IsCopied 4096 2 two_places two_sections 65536 5000 file 2)
copy_sections-IsCopied_example =
    copy_sections-IsCopied 12 2 2048 two_sections 65536 5000 file (replicate gs_size 0) two_places
      (omega arith) (omega arith) two-IsModest two_laid (omega arith)
      (length-replicate gs_size zero)
