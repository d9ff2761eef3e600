-- ===== src/Client/Tests.antt =====
-- Runs of a client against the manager.
use dasim.Base.{
  ℕ, ◌+◌, ◌≤◌, ◌≡◌, refl, true, false, some, none, List, [], ◌∷◌, lookup, arith, if◌then◌else◌,
  ◌==◌, ◌⊎◌,
}
use dasim.Types.{page_size}
use dasim.Calls.{CallParams, CallResult, Payload}
use dasim.Demo.State.{construct}
use dasim.Demo.Regions.{get_anchored_region, free}
use dasim.Manager.Ops.{allocate, map, unmap}
use dasim.Manager.Mapcount.{mapcount_of}
use dasim.Manager.Tests.{willing, willing_sets, willing-Removes, Demo, serving, serving-Live}
use dasim.Client.{Client, Server, handle_call, leave, handle_calls, Incoming, call}
use dasim.Client.Counting.{count_id, handle_call-Counted}
use dasim.Client.Lifetime.{leave-releases, handle_calls-keeps}

-- A client that has mapped region 5 at 0x1000, and one that has nothing.
abbrev owner : Client
owner = record { mappings = (0x1000, 5) ∷ []; state = 1 }

abbrev guest : Client
guest = record { mappings = []; state = 1 }

-- Another mapping of region 5.
abbrev mapping : CallParams
mapping = CallParams.map 5 0x2000 (page_size + page_size)

abbrev mapped : Payload × Server Demo willing
unfolding handle_call
mapped = elim (handle_call Demo willing owner serving mapping) [
  | none ↦ (Payload.unset, record { client = owner; manager = serving })
  | some r ↦ (r.1, r.2)
]

handle_call-Counted_example :
    mapcount_of mapped.1.manager.regions 5 ≡ 0 + count_id 5 mapped.1.client.mappings
unfolding handle_call allocate construct get_anchored_region map dasim.Demo.Regions.allocate
handle_call-Counted_example =
    handle_call-Counted Demo willing willing_sets willing-Removes (λ _. 0) owner serving mapping
      (0, mapped.0, mapped.1) serving-Live (λ id. ground arith) (λ id. ground arith) refl refl 5

abbrev left : Server Demo willing
unfolding leave
left = elim (leave Demo willing owner serving) [
  | none ↦ record { client = owner; manager = serving }
  | some s ↦ s
]

leave-releases_example :
    (left.client.mappings ≡ [])
    × ((id : ℕ)
        → (mapcount_of left.manager.regions id ≡ 0)
          × ((1 ≤ 0) ⊎ (lookup id left.manager.regions ≡ none)))
unfolding leave allocate construct get_anchored_region free unmap dasim.Demo.Regions.allocate
leave-releases_example =
    leave-releases Demo willing willing-Removes (λ _. 0) owner serving left serving-Live
      (λ id. ground arith) (λ id. ground arith) refl

-- A guest that maps region 5 twice at one address, unmaps it once, and asks for nonsense.
abbrev calls : List (Incoming Demo willing)
calls =
    call mapping true
    ∷ call mapping true
    ∷ call (CallParams.unmap 0x2000) true
    ∷ call CallParams.unknown false
    ∷ []

abbrev served : List CallResult × Server Demo willing
unfolding handle_calls
served = elim (handle_calls Demo willing calls guest serving) [
  | none ↦ ([], record { client = guest; manager = serving })
  | some r ↦ r
]

-- The owner's mapping of region 5.
abbrev owned : ℕ → ℕ
owned id = if 5 == id then 1 else 0

handle_calls-keeps_example :
    (served.1.client.mappings ≡ [])
    × ((id : ℕ) → owned id ≤ mapcount_of served.1.manager.regions id)
unfolding handle_calls allocate construct get_anchored_region map unmap dasim.Demo.Regions.allocate
handle_calls-keeps_example =
    handle_calls-keeps Demo willing willing_sets willing-Removes owned calls guest serving served
      serving-Live (λ id. ground arith) (λ id. ground arith) refl
