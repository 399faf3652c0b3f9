-- ===== src/Acpi/Start.antt =====
-- The temporary mapping of ACPI tables, kernel/src/acpi/mod.rs, and the handlers of tables,
-- kernel/src/cfgtb.rs. What a table holds is read through the page tables from the bytes of
-- physical memory; a page that is not mapped is a fault of the kernel.
use helium_os.Prelude.{
  ℕ, zero, suc, ◌+◌, ◌-◌, ◌*◌, ◌/◌, ◌%◌, Bool, true, false, Option, none, some, List, [], ◌∷◌, ◌++◌,
  ltb, ◌==◌, if◌then◌else◌, Outcome, ok, panic, ◌>>=◌, unwrap,
}
use helium_os.Platform.{Align, Paging, Indices, no_flags}
use helium_os.Phys.{page_size}
use helium_os.Vcache.{kvmspace}
use helium_os.Mapper.{Memory, map}
use helium_os.Mapper.Page.{lookup}
use helium_os.Tar.{bytes_eq}

-- `TABLE_VBASE`
abbrev pub table_vbase : ℕ
table_vbase = kvmspace + 1024 * 1024 * 1024 * 1024 + 768 * 1024 * 1024 * 1024

-- `VMemMap`, the pages of the frames that are mapped.
abbrev pub VMemMap : Type 0
VMemMap = List (ℕ × ℕ)

unfoldable pub get_page : ℕ → VMemMap → Option ℕ
get_page frame [] = none
get_page frame ((f, page) ∷ rest) = if f == frame then some page else get_page frame rest

unfoldable pub insert_page : ℕ → ℕ → VMemMap → VMemMap
insert_page frame page [] = (frame, page) ∷ []
insert_page frame page ((f, p) ∷ rest) =
    if f == frame then (frame, page) ∷ rest else (f, p) ∷ insert_page frame page rest

module _ (x : Align) (y : Paging) (z : Indices) (bytes : ℕ → ℕ) where
  -- The memory that the kernel maps, `vmemmap` and `pgindex`.
  pub record TableMap : Type 0 where
    pub memory : Memory x y z
    pub vmemmap : VMemMap
    pub pgindex : ℕ

  -- The number of `n` bytes at a virtual address.
  unfoldable pub read_mapped : ℕ → Memory x y z → ℕ → Outcome ℕ
  read_mapped zero m adr = ok 0
  read_mapped (suc n) m adr = do
    (frame, flags) ← unwrap (lookup x y z m adr)
    rest ← read_mapped n m (adr + 1)
    ok (bytes (frame + adr % page_size) + 256 * rest)

  -- `vmap(..).expect(ERROR_MSG)` without flags
  abbrev vmap_expect : ℕ → ℕ → ℕ → Memory x y z → Outcome (Memory x y z)
  vmap_expect page frame size m =
      map x y z page frame size no_flags m
      >>= (λ (result, m'). elim result [ none ↦ ok m' | some e ↦ panic ])

  -- `map_table`: the address of the table, whose length is read once its first page is mapped.
  unfoldable pub map_table : ℕ → TableMap → Outcome (ℕ × TableMap)
  unfolding map read_mapped insert_page
  map_table padr s = do
    let frame = x.containing_address padr
    let page = table_vbase + s.pgindex * page_size
    m ← vmap_expect page frame page_size s.memory
    let table = page + padr % page_size
    len ← read_mapped 4 m (table + 4)
    let aligned_size = x.align_up len page_size
    let rest = aligned_size - page_size
    m' ←
        (if ltb page_size aligned_size
          then vmap_expect (page + page_size) (frame + page_size) rest m
          else ok m)
    let more = if ltb page_size aligned_size then rest / page_size else 0
    ok (
      table,
      record {
        memory = m';
        vmemmap = insert_page frame page s.vmemmap;
        pgindex = s.pgindex + 1 + more;
      },
    )

  -- `getvadr`
  unfoldable pub getvadr : ℕ → TableMap → Outcome (ℕ × TableMap)
  unfolding map_table get_page
  getvadr padr s = elim (get_page (x.containing_address padr) s.vmemmap) [
    | some page ↦ ok (page + padr % page_size, s)
    | none ↦ map_table padr s
  ]

-- The handlers by the signatures of tables, `HANDLERS` of cfgtb.rs; what a handler does is a step
-- of a state.
module _ (State : Type 0) where
  abbrev pub Handler : Type 0
  Handler = ℕ → State → Outcome State

  abbrev pub Handlers : Type 0
  Handlers = List (List ℕ × List Handler)

  -- `register`: the handler is the last one for its signature.
  unfoldable pub register : List ℕ → Handler → Handlers → Handlers
  register signature handler [] = (signature, handler ∷ []) ∷ []
  register signature handler ((s, hs) ∷ rest) =
      if bytes_eq s signature
      then (s, hs ++ (handler ∷ [])) ∷ rest
      else (s, hs) ∷ register signature handler rest

  unfoldable pub run_handlers : List Handler → ℕ → State → Outcome State
  run_handlers [] table s = ok s
  run_handlers (h ∷ hs) table s = h table s >>= (λ s'. run_handlers hs table s')

  abbrev is_empty : List Handler → Bool
  is_empty [] = true
  is_empty (h ∷ hs) = false

  -- `call`: whether there is a handler, and the state after all of them.
  unfoldable pub call : List ℕ → ℕ → Handlers → State → Outcome (Bool × State)
  unfolding run_handlers
  call signature table [] s = ok (false, s)
  call signature table ((sig, hs) ∷ rest) s =
      let others = call signature table rest s in
      let own = run_handlers hs table s >>= (λ s'. ok (if is_empty hs then false else true, s')) in
      if bytes_eq sig signature then own else others
