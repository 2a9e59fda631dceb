-- ===== src/Io/Handles.antt =====
-- What the handles of resources/io.cpp reach while ranges come and go.
use helix_kernel.Prelude.{
  ℕ, zero, suc, ◌+◌, ◌-◌, ◌*◌, ◌/◌, ◌%◌, ◌^◌, ◌≤◌, ◌<◌, ◌≡◌, refl, sym, ap, ◌∙◌, true, false, some,
  List, [], ◌∷◌, ◌++◌, length, length-append, get_elem?, ltb, leb, ◌==◌, ◌||◌, if◌then◌else◌, arith,
  Bool-cases, inl, inr, ltb→lt,
}
use helix_kernel.Io.{
  Vector, IoMapping, push_back, remove, keep_last, rest_of, erase, address, load, map_io,
  unmap_from, unmap_io, kernel_io_map, kernel_io_unmap, port_of, kernel_io_read8,
}

module _ {ℓ} {A : Type ℓ} where
  get_elem?-append :
      (xs ys : List A) (i : ℕ) → i < length xs → get_elem? (xs ++ ys) i ≡ get_elem? xs i
  get_elem?-append [] ys i lt = absurd (omega arith)
  get_elem?-append (x ∷ xs) ys zero lt = refl
  get_elem?-append (x ∷ xs) ys (suc i) lt = get_elem?-append xs ys i (omega arith)

  get_elem?-last : (xs s : List A) (y : A) → get_elem? ((xs ++ (y ∷ [])) ++ s) (length xs) ≡ some y
  get_elem?-last [] s y = refl
  get_elem?-last (x ∷ xs) s y = get_elem?-last xs s y

  get_elem?-other :
      (xs s t : List A) (y : A) (i : ℕ)
      → i < length xs
      → get_elem? ((xs ++ (y ∷ [])) ++ s) i ≡ get_elem? (xs ++ t) i
  get_elem?-other [] s t y i lt = absurd (omega arith)
  get_elem?-other (x ∷ xs) s t y zero lt = refl
  get_elem?-other (x ∷ xs) s t y (suc i) lt = get_elem?-other xs s t y i (omega arith)

  get_elem?-keep_last :
      (xs s : List A) (j : ℕ)
      → 0 < length xs
      → length xs ≤ suc j
      → get_elem? (xs ++ keep_last xs s) (suc j) ≡ get_elem? (xs ++ s) j
  get_elem?-keep_last [] s j lt le = absurd (omega arith)
  get_elem?-keep_last (x ∷ []) s j lt le = refl
  get_elem?-keep_last (x ∷ y ∷ xs) s zero lt le = absurd (omega arith)
  get_elem?-keep_last (x ∷ y ∷ xs) s (suc j) lt le =
      get_elem?-keep_last (y ∷ xs) s j (omega arith) (omega arith)

  get_elem?-remove_below :
      (xs s : List A) (i j : ℕ)
      → i < length xs
      → j < i
      → get_elem? (remove xs i ++ keep_last xs s) j ≡ get_elem? (xs ++ s) j
  get_elem?-remove_below [] s i j inside lt = absurd (omega arith)
  get_elem?-remove_below (x ∷ []) s i j inside lt = absurd (omega arith)
  get_elem?-remove_below (x ∷ y ∷ xs) s zero j inside lt = absurd (omega arith)
  get_elem?-remove_below (x ∷ y ∷ xs) s (suc i) zero inside lt = refl
  get_elem?-remove_below (x ∷ y ∷ xs) s (suc i) (suc j) inside lt =
      get_elem?-remove_below (y ∷ xs) s i j (omega arith) (omega arith)

  get_elem?-remove_above :
      (xs s : List A) (i j : ℕ)
      → i ≤ j
      → suc j < length xs
      → get_elem? (remove xs i ++ keep_last xs s) j ≡ get_elem? (xs ++ s) (suc j)
  get_elem?-remove_above [] s i j le lt = absurd (omega arith)
  get_elem?-remove_above (x ∷ []) s i j le lt = absurd (omega arith)
  get_elem?-remove_above (x ∷ y ∷ xs) s zero j le lt =
      get_elem?-append (y ∷ xs) (keep_last (y ∷ xs) s) j (omega arith)
      ∙ sym (get_elem?-append (y ∷ xs) s j (omega arith))
  get_elem?-remove_above (x ∷ y ∷ xs) s (suc i) zero le lt = absurd (omega arith)
  get_elem?-remove_above (x ∷ y ∷ xs) s (suc i) (suc j) le lt =
      get_elem?-remove_above (y ∷ xs) s i j (omega arith) (omega arith)

  get_elem?-remove_last :
      (xs s : List A) (i j : ℕ)
      → i < length xs
      → length xs ≤ suc j
      → get_elem? (remove xs i ++ keep_last xs s) j ≡ get_elem? (xs ++ s) j
  get_elem?-remove_last [] s i j inside le = absurd (omega arith)
  get_elem?-remove_last (x ∷ []) s zero j inside le = refl
  get_elem?-remove_last (x ∷ []) s (suc i) j inside le = absurd (omega arith)
  get_elem?-remove_last (x ∷ y ∷ xs) s i zero inside le = absurd (omega arith)
  get_elem?-remove_last (x ∷ y ∷ xs) s zero (suc j) inside le =
      get_elem?-keep_last (y ∷ xs) s j (omega arith) (omega arith)
  get_elem?-remove_last (x ∷ y ∷ xs) s (suc i) (suc j) inside le =
      get_elem?-remove_last (y ∷ xs) s i j (omega arith) (omega arith)

load-address :
    (v : Vector IoMapping) (i : ℕ) → load (address v i) v ≡ get_elem? (v.items ++ v.beyond) i
unfolding load address
load-address v i =
    let above : ltb (v.data_start + i * 16) v.data_start ≡ false = ground arith in
    let offset : v.data_start + i * 16 - v.data_start ≡ i * 16 = omega arith in
    let whole : i * 16 % 16 ≡ 0 = omega arith in
    let index : i * 16 / 16 ≡ i = omega arith in rw (above, offset, whole, index) refl

abbrev mapping_of : ℕ → ℕ → ℕ → IoMapping
mapping_of name base len = record {
  base_port = base % 2 ^ 16;
  len_ports = len % 2 ^ 16;
  owner = name;
}

abbrev appended : Vector IoMapping → IoMapping → Vector IoMapping
appended v m = record v { items = v.items ++ (m ∷ []); beyond = rest_of v.beyond }

kernel_io_map-room :
    (name fresh base len : ℕ) (v : Vector IoMapping)
    → length v.items < v.capacity
    → kernel_io_map name fresh base len v
      ≡ (address v (length v.items), appended v (mapping_of name base len))
unfolding kernel_io_map map_io push_back address
kernel_io_map-room name fresh base len v room =
    let full : leb v.capacity (length v.items) ≡ false = ground arith in
    let last : length (v.items ++ (mapping_of name base len ∷ [])) - 1 ≡ length v.items =
      omega (arith, length-append v.items (mapping_of name base len ∷ [])) in
    rw (full, last) refl

kernel_io_read8-load :
    (handle offset : ℕ) (v : Vector IoMapping) (m : IoMapping) (inb : ℕ → ℕ)
    → load handle v ≡ some m
    → kernel_io_read8 handle offset v inb ≡ some (inb ((m.base_port + offset) % 2 ^ 16))
unfolding kernel_io_read8 port_of
kernel_io_read8-load handle offset v m inb made = rw (kernel_io_read8, port_of, made) refl

-- Where the vector has room, a mapping that `uacpi_kernel_io_map` makes is behind the handle
-- that it returns, a read through the handle is a read of the port at the offset from the base,
-- both cut to 16 bits, and the handle of each earlier range, if there are any, reaches what it
-- reached.
pub kernel_io_map-load :
    (name fresh base len offset : ℕ) (inb : ℕ → ℕ) (v : Vector IoMapping)
    → length v.items < v.capacity
    → let (handle, v') = kernel_io_map name fresh base len v in
      (load handle v'
        ≡ some (record { base_port = base % 2 ^ 16; len_ports = len % 2 ^ 16; owner = name }))
      × (kernel_io_read8 handle offset v' inb ≡ some (inb ((base + offset) % 2 ^ 16)))
      × ((i : ℕ) → i < length v.items → load (address v i) v' ≡ load (address v i) v)
unfolding address
kernel_io_map-load name fresh base len offset inb v room =
    let m = mapping_of name base len in
    let made : load (address v (length v.items)) (appended v m) ≡ some m =
      load-address (appended v m) (length v.items) ∙ get_elem?-last v.items (rest_of v.beyond) m in
    let kept : (i : ℕ)
        → i < length v.items
        → load (address v i) (appended v m) ≡ load (address v i) v =
      λ i lt.
        load-address (appended v m) i
        ∙ get_elem?-other v.items (rest_of v.beyond) v.beyond m i lt
        ∙ sym (load-address v i) in
    let cut : (base % 2 ^ 16 + offset) % 2 ^ 16 ≡ (base + offset) % 2 ^ 16 = omega arith in
    let read = kernel_io_read8-load (address v (length v.items)) offset (appended v m) m inb made in
    rw (kernel_io_map-room name fresh base len v room)
      (made, read ∙ ap (λ p. some (inb p)) cut, kept)

unmap_from-address :
    (r i k : ℕ) (v : Vector IoMapping)
    → k < r
    → unmap_from r i (address v (i + k)) v ≡ erase (i + k) v
unfolding unmap_from address
unmap_from-address zero i k v lt = absurd (omega arith)
unmap_from-address (suc r) i zero v lt =
    let here : i + 0 ≡ i = omega arith in
    let same : (v.data_start + i * 16 == v.data_start + i * 16) ≡ true = ground arith in
    rw (here, same) refl
unmap_from-address (suc r) i (suc k) v lt =
    let next : i + suc k ≡ i + 1 + k = omega arith in
    let differs : (v.data_start + i * 16 == v.data_start + (i + suc k) * 16) ≡ false =
      ground arith in
    rw differs (rw next (unmap_from-address r (i + 1) k v (omega arith)))

load-address-erase :
    (i j : ℕ) (v : Vector IoMapping)
    → i < length v.items
    → load (address v j) (erase i v) ≡ (
        if ltb j i || leb (length v.items) (j + 1)
        then load (address v j) v
        else load (address v (j + 1)) v)
unfolding erase address
load-address-erase i j v inside =
    let after = load-address (erase i v) j in
    elim (Bool-cases (ltb j i)) [
      | inl before ↦
          let kept = get_elem?-remove_below v.items v.beyond i j inside (ltb→lt j i before) in
          rw before (after ∙ kept ∙ sym (load-address v j))
      | inr behind ↦ elim (Bool-cases (leb (length v.items) (j + 1))) [
        | inl end ↦
            let le : length v.items ≤ suc j = ground arith in
            let kept = get_elem?-remove_last v.items v.beyond i j inside le in
            rw (behind, end) (after ∙ kept ∙ sym (load-address v j))
        | inr more ↦
            let le : i ≤ j = ground arith in
            let lt : suc j < length v.items = ground arith in
            let next : j + 1 ≡ suc j = omega arith in
            let moved = get_elem?-remove_above v.items v.beyond i j le lt in
            rw (behind, more, next) (after ∙ moved ∙ sym (load-address v (suc j)))
      ]
    ]

-- After `uacpi_kernel_io_unmap` of the range at one place of the vector, the handle of each range
-- from that one on reaches the next range, but for the handle of the last one, which still reaches
-- the last range; the handles before it reach what they reached.
pub kernel_io_unmap-load :
    (i j : ℕ) (v : Vector IoMapping)
    → i < length v.items
    → load (address v j) (kernel_io_unmap (address v i) v) ≡ (
        if ltb j i || leb (length v.items) (j + 1)
        then load (address v j) v
        else load (address v (j + 1)) v)
unfolding kernel_io_unmap unmap_io
kernel_io_unmap-load i j v lt =
    let gone : unmap_from (length v.items) 0 (address v i) v ≡ erase i v =
      let n : 0 + i ≡ i = omega arith in rw n at (unmap_from-address (length v.items) 0 i v lt) in
    rw gone (load-address-erase i j v lt)
