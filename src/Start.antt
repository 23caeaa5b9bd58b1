-- ===== src/Start.antt =====
-- The start of a program: `_ctru_rt_start` of src/lib.rs, and what the attribute `entry` takes
-- (ctru-rt-macros/src/entry.rs). The state is the outside world, the statics of the heap, and the
-- region that the allocator of video memory was given.
use ctru_rt.Base.{
  ℕ, Bool, true, false, not, ◌&&◌, ◌==◌, if◌then◌else◌, List, Option, some, Outcome, ok, err, panic,
  Result, okay, fail, ◌≡◌, ◌≢◌, ◌⊎◌, inl, inr, refl,
}
use ctru_rt.Machine.{Machine, Sys, ◌>>◌, expect, outside, modify}
use ctru_rt.Svc.Calls.{output_debug_bytes}
use ctru_rt.Heap
use ctru_rt.Heap.{Heap}
use ctru_rt.Heap.Init.{allocated, init-ok}
use ctru_rt.Graphics.{vram_start, vram_size}

-- `vram::init`
unfoldable pub vram_init : {V : Type 0} → Sys (V × Option (ℕ × ℕ)) (Unit {0})
vram_init = modify (λ _. some (vram_start, vram_size))

-- The two lines of `early_debug` are parameters.
module _ {W : Type 0} (m : Machine W) (mapped_heap mapped_vram : List ℕ) where
  -- From setting up the heap on.
  abbrev starting :
      Sys (W × Heap) (Unit {0})
      → Sys ((W × Heap) × Option (ℕ × ℕ)) (Unit {0})
      → Sys ((W × Heap) × Option (ℕ × ℕ)) (Unit {0})
  starting heap_init entry =
      outside (expect heap_init)
      >> outside (outside (output_debug_bytes m mapped_heap))
      >> vram_init
      >> outside (outside (output_debug_bytes m mapped_vram))
      >> entry

  unfoldable pub start :
      Sys ((W × Heap) × Option (ℕ × ℕ)) (Unit {0}) → Sys ((W × Heap) × Option (ℕ × ℕ)) (Unit {0})
  start entry = starting (Heap.init m) entry

  -- The world behind the two lines.
  abbrev pub announced : W → W
  announced w = (output_debug_bytes m mapped_vram (output_debug_bytes m mapped_heap w).1).1

  -- Where `heap::init` returns, the program is entered in the state that it leaves and behind the two
  -- lines, with both allocators set up: the heap's with a region of the heap's size, and that of
  -- video memory with all of it. Where `heap::init` does not return, the start panics.
  pub start_lem :
      (entry : Sys ((W × Heap) × Option (ℕ × ℕ)) (Unit {0})) (w : W) (h : Heap) (v : Option (ℕ × ℕ))
      → ((w' : W) × (h' : Heap) × (Heap.init m (w, h) ≡ (ok tt, (w', h')))
          × (allocated h' ≡ some h'.heap_size)
          × (start entry ((w, h), v) ≡ entry ((announced w', h'), some (vram_start, vram_size))))
        ⊎ ((Heap.init m (w, h)).0 ≢ ok tt) × ((start entry ((w, h), v)).0 ≡ panic)
  unfolding start vram_init output_debug_bytes
  start_lem entry w h v = go (Heap.init m (w, h)) refl
    where
      go :
          (r : Outcome (Unit {0}) × (W × Heap))
          → Heap.init m (w, h) ≡ r
          → ((w' : W) × (h' : Heap) × (r ≡ (ok tt, (w', h')))
              × (allocated h' ≡ some h'.heap_size)
              × (starting (λ s. r) entry ((w, h), v)
                  ≡ entry ((announced w', h'), some (vram_start, vram_size))))
            ⊎ (r.0 ≢ ok tt) × ((starting (λ s. r) entry ((w, h), v)).0 ≡ panic)
      go (ok tt, (w', h')) e =
          let (raw, remaining, p, q, c, a) = init-ok m w h (w', h') e in inl (w', h', refl, a, refl)
      go (err x, s) e = inr ((λ p. cc), refl)
      go (panic, s) e = inr ((λ p. cc), refl)

-- What the attribute reads of a function's signature, as `syn` has parsed it.
pub data ReturnType : Type 0 where
  default_return never other_type : ReturnType
  tuple : ℕ → ReturnType

pub record Signature : Type 0 where
  pub is_const : Bool
  pub inherited_visibility : Bool
  pub has_abi : Bool
  pub inputs : ℕ
  pub generics : ℕ
  pub has_where_clause : Bool
  pub is_variadic : Bool
  pub output : ReturnType

pub data EntryError : Type 0 where
  invalid_signature has_arguments : EntryError

unfoldable pub valid_return_type : ReturnType → Bool
valid_return_type default_return = true
valid_return_type (tuple elems) = elems == 0
valid_return_type never = true
valid_return_type other_type = false

unfoldable pub valid_signature : Signature → Bool
valid_signature s =
    not s.is_const
    && s.inherited_visibility
    && not s.has_abi
    && (s.inputs == 0)
    && (s.generics == 0)
    && not s.has_where_clause
    && not s.is_variadic
    && valid_return_type s.output

-- The attribute with a number of arguments.
unfoldable pub entry : ℕ → Signature → Result (Unit {0}) EntryError
entry args s =
    if not (valid_signature s)
    then fail invalid_signature
    else if not (args == 0)
    then fail has_arguments
    else okay tt
