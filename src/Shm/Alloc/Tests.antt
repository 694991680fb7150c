-- ===== src/Shm/Alloc/Tests.antt =====
-- The boxes of examples/evering-ipc on concrete inputs: a memory of 64 bytes.
use openoscamp_2025s.Base.{◌≡◌, refl, ◌⊎◌, List, [], ◌∷◌}
use openoscamp_2025s.Base.Fault.{done, fault, panic}
use openoscamp_2025s.Shm.{MemLayout}
use openoscamp_2025s.Shm.Alloc.{
  without, new_box, alloc_raw, dealloc_raw, new_slice, alloc_slice_uninit, drop_box,
}
use openoscamp_2025s.Shm.Alloc.Apart.{BoxAct, make, make_slice, drop_at, Boxes, find_box}
use openoscamp_2025s.Shm.Alloc.Run.{box_step, box_run, Stops, AreBoxes, boxes_apart}
use openoscamp_2025s.Shm.Alloc.Bump.{Bump, bump, apart_test, fine_test, taken, place, allocate_at}

abbrev memory : Bump
memory = record { memory = (4096, 4160); next = 4096; blocks = [] }

abbrev word : MemLayout
word = record { size = 4; align = 4 }

abbrev acts : List BoxAct
acts = make word ∷ make_slice word 3 ∷ drop_at 4100 ∷ make word ∷ []

box_run_test :
    box_run bump (record { allocator = memory; boxes = [] }) acts
    ≡ done (record {
      allocator = record {
        memory = (4096, 4160);
        next = 4128;
        blocks = (4124, 4) ∷ (4108, 12) ∷ [];
      };
      boxes =
          record { ptr = 4124; layout = word }
          ∷ record { ptr = 4108; layout = record { size = 12; align = 4 } }
          ∷ [];
    })
unfolding box_run box_step new_box alloc_raw dealloc_raw new_slice alloc_slice_uninit drop_box
    find_box apart_test fine_test taken place allocate_at without
box_run_test = refl

boxes_apart_example :
    (Stops bump 4096 4160 (record { allocator = memory; boxes = [] }) acts
      × (box_run bump (record { allocator = memory; boxes = [] }) acts ≡ fault panic))
    ⊎ ((w : Boxes Bump) × (box_run bump (record { allocator = memory; boxes = [] }) acts ≡ done w)
        × AreBoxes bump 4096 4160 w)
boxes_apart_example = boxes_apart bump 4096 4160 memory acts refl refl
