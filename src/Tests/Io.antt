-- ===== src/Tests/Io.antt =====
-- Runs of src/lib/schwa/io and its theorems at concrete inputs.
use libschwa.Prelude.{◌≡◌, refl, [], ◌∷◌, ◌++◌, arith}
use libschwa.Io.WriteBuffer.{
  WriteBuffer, create, put, write, write_zerocopy, copy_to, copy_from, store, open_block,
}
use libschwa.Io.WriteBuffer.Contents.{
  IsValid, create-IsValid, contents, put_lem, write_lem, copy_to-contents,
}
use libschwa.Io.WriteBuffer.Copy.{copy_from_lem}

-- Blocks of four bytes, two of them, in pools of eight bytes.
abbrev small : WriteBuffer
small = create 4 2 8 1

small-IsValid : IsValid small
small-IsValid = create-IsValid 4 2 8 1 (omega arith) (omega arith)

abbrev half_full : WriteBuffer
half_full = write (1 ∷ 2 ∷ 3 ∷ []) small

half_full-IsValid : IsValid half_full
half_full-IsValid = (write_lem small small-IsValid (1 ∷ 2 ∷ 3 ∷ [])).0

copied_out :
    (copy_to (write_zerocopy (9 ∷ []) (put 6 (write (4 ∷ 5 ∷ []) half_full)))).0
    ≡ 1 ∷ 2 ∷ 3 ∷ 4 ∷ 5 ∷ 6 ∷ 9 ∷ []
unfolding create put write write_zerocopy copy_to store open_block
copied_out = refl

put_lem_example :
    IsValid (put 7 half_full) × (contents (put 7 half_full) ≡ contents half_full ++ 7 ∷ [])
put_lem_example = put_lem half_full half_full-IsValid 7

write_lem_example :
    IsValid (write (4 ∷ 5 ∷ []) half_full)
    × (contents (write (4 ∷ 5 ∷ []) half_full) ≡ contents half_full ++ 4 ∷ 5 ∷ [])
write_lem_example = write_lem half_full half_full-IsValid (4 ∷ 5 ∷ [])

copy_to-contents_example : (copy_to half_full).0 ≡ contents half_full
copy_to-contents_example = copy_to-contents half_full half_full-IsValid

copy_from_lem_example :
    IsValid (copy_from half_full small).1
    × (contents (copy_from half_full small).1 ≡ contents small ++ contents half_full)
    × (contents (copy_from half_full small).0 ≡ contents half_full)
copy_from_lem_example = copy_from_lem half_full small half_full-IsValid small-IsValid
