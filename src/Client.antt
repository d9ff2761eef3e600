-- ===== src/Client.antt =====
-- The manager's side of a client: the class `client` of damanager/src/client.cc.
pub mod Counting
pub mod Lifetime
mod Tests
use dasim.Base.{
  ℕ, ◌==◌, Bool, true, false, not, Option, none, some, List, [], ◌∷◌, Map, lookup, insert_ordered,
  erase_entry, if◌then◌else◌, ◌>>=◌,
}
use dasim.Types.{enoent, enotsup}
use dasim.Calls.{CallParams, Payload, CallResult}
use dasim.Manager.Interface.{BufferManager}
use dasim.Manager.State.{Kernel, ClientRegionInfo}
use dasim.Manager.Ops.{Cm, allocate, anchor, unanchor, get_size, map, unmap, persist, advise}

-- m_mappings, by the address in the client, and m_state.
pub record Client : Type 0 where
  pub mappings : Map ℕ
  pub state : ℕ

-- `start_handle_calls`; `none` is DASIM_FATAL.
unfoldable pub start_handle_calls : Client → Option Client
start_handle_calls c = if c.state == 0 then some (record c { state = 1 }) else none

module _ (bm : BufferManager) (kernel : Kernel) where
  -- The client beside the manager, which the mutex gives to one call at a time.
  pub record Server : Type 0 where
    pub client : Client
    pub manager : Cm bm kernel

  -- What a handler returns: the code, the member of the union that it writes, and the new state.
  abbrev pub Reply : Type 0
  Reply = Option (ℕ × Payload × Server)

  -- The local variable `region_info` before it is written.
  abbrev pub no_info : ClientRegionInfo
  no_info = record { segid = 0; size = 0 }

  -- `m_mappings[addr] = id`
  abbrev pub add_mapping : Client → ℕ → ℕ → Client
  add_mapping c addr id = record c { mappings = insert_ordered addr id c.mappings }

  unfoldable pub answer_region :
      Client → ℕ → ℕ → ℕ × ClientRegionInfo × Cm bm kernel → ℕ × Payload × Server
  answer_region c addr id (ret, info, m) =
      if not (ret == 0)
      then (ret, Payload.unset, record { client = c; manager = m })
      else (0, Payload.segid info.segid, record { client = add_mapping c addr id; manager = m })

  unfoldable pub handle_call_unmap : Client → Cm bm kernel → ℕ → Reply
  handle_call_unmap c m addr = elim (lookup addr c.mappings) [
    | none ↦ some (enoent, Payload.unset, record { client = c; manager = m })
    | some id ↦
        let c' = record c { mappings = erase_entry addr c.mappings } in
        unmap bm kernel m id >>= λ r.
        some (r.0, Payload.unset, record { client = c'; manager = r.1 })
  ]

  unfoldable pub handle_call_persist : Client → Cm bm kernel → ℕ → ℕ → ℕ → Reply
  handle_call_persist c m addr off size = elim (lookup addr c.mappings) [
    | none ↦ some (enoent, Payload.unset, record { client = c; manager = m })
    | some id ↦ persist bm kernel m id off size >>= λ r.
        some (r.0, Payload.unset, record { client = c; manager = r.1 })
  ]

  unfoldable pub handle_call_get_size : Client → Cm bm kernel → ℕ → ℕ × Payload × Server
  handle_call_get_size c m id =
      let (ret, out, m') = get_size bm kernel m id 0 in
      (
        ret,
        if ret == 0 then Payload.size out else Payload.unset,
        record { client = c; manager = m' },
      )

  -- `handle_call`, under the manager's lock, and the handlers that it dispatches to.
  unfoldable pub handle_call : Client → Cm bm kernel → CallParams → Reply
  unfolding answer_region handle_call_unmap handle_call_persist handle_call_get_size
  handle_call c m (CallParams.alloc id addr size properties) =
      allocate bm kernel m id size properties no_info >>= λ r. some (answer_region c addr id r)
  handle_call c m (CallParams.anchor id) =
      let (ret, m') = anchor bm kernel m id in
      some (ret, Payload.unset, record { client = c; manager = m' })
  handle_call c m (CallParams.unanchor id) = unanchor bm kernel m id >>= λ r.
      some (r.0, Payload.unset, record { client = c; manager = r.1 })
  handle_call c m (CallParams.get_size id) = some (handle_call_get_size c m id)
  handle_call c m (CallParams.map id addr size) =
      map bm kernel m id no_info >>= λ r. some (answer_region c addr id r)
  handle_call c m (CallParams.unmap addr) = handle_call_unmap c m addr
  handle_call c m (CallParams.persist addr off size) = handle_call_persist c m addr off size
  handle_call c m (CallParams.advise id properties) =
      let (ret, m') = advise bm kernel m id properties in
      some (ret, Payload.unset, record { client = c; manager = m' })
  handle_call c m CallParams.unknown =
      some (enotsup, Payload.unset, record { client = c; manager = m })

  -- while (!m_mappings.empty()) { ...; m_mappings.erase(it); m_manager->unmap(id); }
  unfoldable pub unmap_all : Map ℕ → Cm bm kernel → Option (Cm bm kernel)
  unmap_all [] m = some m
  unmap_all ((addr, id) ∷ rest) m = elim (unmap bm kernel m id) [
    | none ↦ none
    | some r ↦ unmap_all rest r.1
  ]

  -- The end of `handle_calls`.
  unfoldable pub leave : Client → Cm bm kernel → Option Server
  unfolding unmap_all
  leave c m = unmap_all c.mappings m >>= λ m'.
      some (record { client = record { mappings = []; state = 2 }; manager = m' })

  -- What a round of `handle_calls` meets: a call, with whether its result can be written, or the
  -- end of the connection.
  pub data Incoming : Type 0 where
    call : CallParams → Bool → Incoming
    closed : Incoming

  -- `handle_calls`, with the results that it sends. The list ends where shutdown is signalled.
  unfoldable pub handle_calls :
      List Incoming → Client → Cm bm kernel → Option (List CallResult × Server)
  unfolding handle_call leave
  handle_calls [] c m = leave c m >>= λ s. some ([], s)
  handle_calls (closed ∷ rest) c m = leave c m >>= λ s. some ([], s)
  handle_calls (call params writable ∷ rest) c m = elim (handle_call c m params) [
    | none ↦ none
    | some r ↦
        let result : CallResult = record { error = r.0; payload = r.1 } in
        let more = handle_calls rest r.2.client r.2.manager in
        if writable
        then (more >>= λ t. some (result ∷ t.0, t.1))
        else (leave r.2.client r.2.manager >>= λ s. some ([], s))
  ]
