-- ===== src/FileIndex/Growth.antt =====
-- `add_file_mutexfree`: the write of the new entry, in the array as it is and in an enlarged one.
use native.Mathlib.Decide.{dec_lt}
use vlbi_streamer.Base.{
  ℕ, ◌+◌, ◌-◌, ◌%◌, ◌^◌, ◌≤◌, ◌<◌, ◌≡◌, ◌∙◌, ◌≢◌, refl, ◌⊎◌, inl, inr, Bool, true, false, Option,
  none, some, List, ◌++◌, if◌then◌else◌, ltb, lt→ltb, length, set, get_elem?, take-all,
  get_elem?-set_self, get_elem?-set_ne, get_elem?-append_left, or_diverge, length-set,
  length-append, length-tabulate, tabulate, Outcome, ok, faulted, arith,
}
use vlbi_streamer.FileIndex.{
  FileIndex, FileHolder, FhStatus, grow, grow_fuel, store_file, cells_of, reserve, store_added,
  afi_add_file,
}
use vlbi_streamer.FileIndex.Validity.{IsValid}
use vlbi_streamer.FileIndex.Doubling.{Grown, grow_enough}

store_file-in :
    (files : List FileHolder) (i : ℕ) (v : FileHolder)
    → i < length files
    → store_file files i v ≡ ok (set files i v)
unfolding store_file
store_file-in files i v h = ground arith

store_file-out :
    (files : List FileHolder) (i : ℕ) (v : FileHolder)
    → length files ≤ i
    → store_file files i v ≡ faulted
unfolding store_file
store_file-out files i v h = ground arith

-- What an index is after a new entry went in at `id`.
pub record Added (fi fi' : FileIndex) (id : ℕ) (fh : FileHolder) : Type 0 where
  pub valid : IsValid fi'
  pub entry : get_elem? fi'.files id ≡ some fh
  pub others :
      (j : ℕ) → id ≢ j → j < fi.allocated_files → get_elem? fi'.files j ≡ get_elem? fi.files j
  pub count : fi'.n_files ≡ (if ltb id fi.n_files then fi.n_files else fi.n_files + 1)
  pub name : fi'.filename ≡ fi.filename
  pub address : fi'.addr ≡ fi.addr

-- The call returns 0 with the entry stored.
abbrev pub Stores : Outcome (FileIndex × Bool) → FileIndex → ℕ → FileHolder → Type 0
Stores out fi id fh = (fi' : FileIndex) × (out ≡ ok (fi', true)) × Added fi fi' id fh

store_added-Added :
    (fi : FileIndex) (id diskid : ℕ) (status : FhStatus)
    → IsValid fi
    → id < fi.allocated_files
    → (fi' : FileIndex) × (store_added fi id diskid status ≡ ok (fi', true))
      × Added fi fi' id (record { diskid = diskid; status = status })
unfolding store_added
store_added-Added fi id diskid status v h = (
  record fi {
    n_files = if ltb id fi.n_files then fi.n_files else (fi.n_files + 1) % 2 ^ 64;
    files = set fi.files id (record { diskid = diskid; status = status });
  },
  ground (arith, store_file-in fi.files id (record { diskid = diskid; status = status })),
  record {
    valid = ground (arith, length-set fi.files id (record { diskid = diskid; status = status }));
    entry = get_elem?-set_self fi.files id _ (omega arith);
    others = λ j ne _. get_elem?-set_ne fi.files id j _ ne;
    count = ground arith;
    name = refl;
    address = refl;
  },
)

-- Below allocated_files, on a valid index, afi_add_file stores the entry, counts it once and keeps
-- all others.
pub afi_add_file-in_room :
    (realloc : Option (ℕ → FileHolder)) (fi : FileIndex) (id diskid : ℕ) (status : FhStatus)
    → IsValid fi
    → id < fi.allocated_files
    → Stores
        (afi_add_file realloc fi id diskid status)
        fi
        id
        (record { diskid = diskid; status = status })
unfolding afi_add_file
afi_add_file-in_room realloc fi id diskid status v h =
    let (fi', e, a) = store_added-Added fi id diskid status v h in (fi', ground (arith, e), a)

store_added-out :
    (fi : FileIndex) (id diskid : ℕ) (status : FhStatus)
    → length fi.files ≤ id
    → store_added fi id diskid status ≡ faulted
unfolding store_added
store_added-out fi id diskid status h =
    ground (arith, store_file-out fi.files id (record { diskid = diskid; status = status }))

afi_add_file-out :
    (realloc : Option (ℕ → FileHolder)) (fi : FileIndex) (id diskid : ℕ) (status : FhStatus)
    → id ≤ fi.allocated_files
    → length fi.files ≤ id
    → afi_add_file realloc fi id diskid status ≡ faulted
unfolding afi_add_file
afi_add_file-out realloc fi id diskid status le h =
    ground (arith, store_added-out fi id diskid status h)

-- Past the room of a valid index, for an id up to 2^63, a failed realloc is reported and keeps the
-- array, but allocated_files stays at the size that was asked for, so that the same call made again
-- writes outside the array.
pub afi_add_file-retry :
    (realloc : Option (ℕ → FileHolder)) (fi : FileIndex) (id diskid : ℕ) (status : FhStatus)
    → IsValid fi
    → fi.allocated_files < id
    → id ≤ 2 ^ 63
    → (fi' : FileIndex) × (afi_add_file none fi id diskid status ≡ ok (fi', false))
      × (fi'.files ≡ fi.files)
      × (afi_add_file realloc fi' id diskid status ≡ faulted)
unfolding afi_add_file reserve
afi_add_file-retry realloc fi id diskid status v h b =
    let (n, e, g) = grow_enough fi.allocated_files id v.nonempty b in
    (
      record fi { allocated_files = n },
      ground (arith, e),
      refl,
      afi_add_file-out realloc (record fi { allocated_files = n }) id diskid status g.holds
          (omega (arith, v.room)),
    )

enlarged : FileIndex → (ℕ → FileHolder) → ℕ → FileIndex
enlarged fi junk n = record fi {
  allocated_files = n;
  files = fi.files ++ tabulate junk (length fi.files) (n - length fi.files);
}

length-enlarged :
    (fi : FileIndex) (junk : ℕ → FileHolder) (n : ℕ)
    → IsValid fi
    → fi.allocated_files ≤ n
    → length (enlarged fi junk n).files ≡ n
unfolding enlarged
length-enlarged fi junk n v h = omega (
  arith,
  v.room,
  length-append fi.files (tabulate junk (length fi.files) (n - length fi.files)),
  length-tabulate junk (length fi.files) (n - length fi.files),
)

afi_add_file-enlarged :
    (junk : ℕ → FileHolder) (fi : FileIndex) (id diskid : ℕ) (status : FhStatus) (n : ℕ)
    → fi.allocated_files < id
    → grow grow_fuel fi.allocated_files id ≡ some n
    → n < 2 ^ 61
    → length fi.files ≤ n
    → afi_add_file (some junk) fi id diskid status
      ≡ store_added (enlarged fi junk n) id diskid status
unfolding afi_add_file reserve enlarged
afi_add_file-enlarged junk fi id diskid status n h e small more =
    let cells : cells_of n ≡ n = omega arith in
    rw (lt→ltb _ _ h, e, or_diverge, cells, take-all n fi.files more)

enlarged-IsValid :
    (fi : FileIndex) (junk : ℕ → FileHolder) (n : ℕ)
    → IsValid fi
    → fi.allocated_files ≤ n
    → n ≤ 2 ^ 63
    → IsValid (enlarged fi junk n)
unfolding enlarged
enlarged-IsValid fi junk n v h b = record {
  room = length-enlarged fi junk n v h;
  counted = omega (arith, v.counted);
  nonempty = omega (arith, v.nonempty);
  small = b;
}

-- An entry added to the enlarged array is an entry added to the array as it was.
Added-enlarged :
    (fi fi' : FileIndex) (junk : ℕ → FileHolder) (n id : ℕ) (fh : FileHolder)
    → IsValid fi
    → fi.allocated_files ≤ n
    → Added (enlarged fi junk n) fi' id fh
    → Added fi fi' id fh
unfolding enlarged
Added-enlarged fi fi' junk n id fh v h a = record {
  valid = a.valid;
  entry = a.entry;
  others = λ j ne lt.
      a.others j ne (omega arith)
      ∙ get_elem?-append_left fi.files (tabulate junk (length fi.files) (n - length fi.files)) j
          (omega (arith, v.room));
  count = a.count;
  name = a.name;
  address = a.address;
}

-- Past the room of a valid index, for an id up to 2^60, the array is enlarged to the first doubling
-- n of allocated_files that is at least the id. If n is more than the id the entry is stored and
-- the others are kept; if n is the id the entry goes one past the new array.
pub afi_add_file-enlarges :
    (junk : ℕ → FileHolder) (fi : FileIndex) (id diskid : ℕ) (status : FhStatus)
    → IsValid fi
    → fi.allocated_files < id
    → id ≤ 2 ^ 60
    → (n : ℕ) × Grown fi.allocated_files id n
      × ((n ≡ id) × (afi_add_file (some junk) fi id diskid status ≡ faulted)
          ⊎ (id < n)
            × Stores
                (afi_add_file (some junk) fi id diskid status)
                fi
                id
                (record { diskid = diskid; status = status }))
afi_add_file-enlarges junk fi id diskid status v h b =
    let (n, e, g) = grow_enough fi.allocated_files id v.nonempty (omega arith) in
    let up : fi.allocated_files ≤ n = omega (arith, g.holds) in
    let step =
      afi_add_file-enlarged junk fi id diskid status n h e (omega (arith, g.first))
        (omega (arith, v.room)) in
    let v' : IsValid (enlarged fi junk n) =
      enlarged-IsValid fi junk n v up (omega (arith, g.first)) in
    (
      n,
      g,
      elim (dec_lt id n) [
        | no full ↦
            let same : n ≡ id = omega (arith, g.holds) in
            inl (
              same,
              step
                  ∙ store_added-out (enlarged fi junk n) id diskid status
                      (omega (arith, length-enlarged fi junk n v up)),
            )
        | yes inside ↦
            let (fi', r, a) =
              store_added-Added (enlarged fi junk n) id diskid status v'
                (unfold enlarged in inside) in
            inr (inside, (fi', step ∙ r, Added-enlarged fi fi' junk n id _ v up a))
      ],
    )
