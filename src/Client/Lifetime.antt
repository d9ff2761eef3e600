-- ===== src/Client/Lifetime.antt =====
-- What remains of a client when `handle_calls` ends, whatever it called before.
use dasim.Base.{
  ℕ, ◌+◌, ◌≤◌, ◌<◌, ◌≡◌, refl, ap, none, some, some_inj, List, [], ◌∷◌, Map, lookup, length, u64,
  >>=-eq-some, arith, inl, inr, ◌⊎◌, Bool-cases, Option-cases,
}
use dasim.Calls.{CallResult}
use dasim.Manager.Interface.{BufferManager}
use dasim.Manager.State.{Kernel}
use dasim.Manager.Ops.{Cm, unmap}
use dasim.Manager.Mapcount.{count_in, mapcount_of, Live, SetsErrno, Removes, unmap-Loses}
use dasim.Client.{
  Client, Server, handle_call, unmap_all, leave, handle_calls, Incoming, call, closed,
}
use dasim.Client.Counting.{count_id, handle_call-Balance}

module _ (bm : BufferManager) (kernel : Kernel) where
  unmap_all-Loses :
      Removes kernel
      → (mappings : Map ℕ) (m m' : Cm bm kernel) → Live m.regions
      → ((id : ℕ) → mapcount_of m.regions id < u64)
      → ((id : ℕ) → count_id id mappings ≤ mapcount_of m.regions id)
      → unmap_all bm kernel mappings m ≡ some m'
      → Live m'.regions
        × ((id : ℕ) → mapcount_of m'.regions id + count_id id mappings ≡ mapcount_of m.regions id)
  unfolding unmap_all
  unmap_all-Loses removes [] m m' live room backed e =
      rw (← some_inj _ _ e) (live, λ id. omega arith)
  unmap_all-Loses removes ((addr, i) ∷ rest) m m' live room backed e =
      elim (Option-cases (unmap bm kernel m i)) [
        | inl stuck ↦ let k = rw (stuck, unmap_all) at e in absurd cc
        | inr (a, done) ↦
            let (_, loses) =
              unmap-Loses bm kernel removes m i a live (ground (arith, backed i)) (room i) done in
            let (live', counts) =
              unmap_all-Loses removes rest a.1 m' loses.live
                (λ j. ground (arith, loses.counts j, room j))
                (λ j. ground (arith, loses.counts j, backed j)) (rw (done, unmap_all) at e) in
            (live', λ j. ground (arith, loses.counts j, counts j))
      ]

  leave-Loses :
      Removes kernel
      → (c : Client) (m : Cm bm kernel) (r : Server bm kernel) → Live m.regions
      → ((id : ℕ) → mapcount_of m.regions id < u64)
      → ((id : ℕ) → count_id id c.mappings ≤ mapcount_of m.regions id)
      → leave bm kernel c m ≡ some r
      → (r.client.mappings ≡ [])
        × Live r.manager.regions
        × ((id : ℕ)
            → mapcount_of r.manager.regions id + count_id id c.mappings ≡ mapcount_of m.regions id)
  unfolding leave
  leave-Loses removes c m r live room backed e =
      let (m', done, k) = >>=-eq-some (unmap_all bm kernel c.mappings m) _ e in
      let (live', counts) = unmap_all-Loses removes c.mappings m m' live room backed done in
      rw (← some_inj _ _ k) (refl, live', counts)

  leave-keeps :
      Removes kernel
      → (other : ℕ → ℕ) (c : Client) (m : Cm bm kernel) (r : Server bm kernel) → Live m.regions
      → ((id : ℕ) → mapcount_of m.regions id < u64)
      → ((id : ℕ) → other id + count_id id c.mappings ≤ mapcount_of m.regions id)
      → leave bm kernel c m ≡ some r
      → (r.client.mappings ≡ []) × ((id : ℕ) → other id ≤ mapcount_of r.manager.regions id)
  leave-keeps removes other c m r live room backed e =
      let (empty, live', counts) =
        leave-Loses removes c m r live room (λ id. omega (arith, backed id)) e in
      (empty, λ id. omega (arith, backed id, counts id))

  -- A client that leaves releases all that it alone has mapped: if every region is counted once
  -- for each of its mappings and `other id` times besides, and each xpmem_remove() succeeds, then
  -- `leave` empties its mappings, `other` is what remains counted, and each region is gone or
  -- has another mapping. This takes that each region has a mapping before, that no counter is at
  -- its limit, and that `leave` returns.
  pub leave-releases :
      Removes kernel
      → (other : ℕ → ℕ) (c : Client) (m : Cm bm kernel) (r : Server bm kernel) → Live m.regions
      → ((id : ℕ) → mapcount_of m.regions id < u64)
      → ((id : ℕ) → mapcount_of m.regions id ≡ other id + count_id id c.mappings)
      → leave bm kernel c m ≡ some r
      → (r.client.mappings ≡ [])
        × ((id : ℕ)
            → (mapcount_of r.manager.regions id ≡ other id)
              × ((1 ≤ other id) ⊎ (lookup id r.manager.regions ≡ none)))
  leave-releases removes other c m r live room counted e =
      let (empty, live', counts) =
        leave-Loses removes c m r live room (λ id. omega (arith, counted id)) e in
      (
        empty,
        λ id. (
          omega (arith, counted id, counts id),
          elim (Option-cases (lookup id r.manager.regions)) [
            | inl gone ↦ inr gone
            | inr (region, found) ↦
                inl (omega (arith, live' id region found, counted id, counts id, ap count_in found))
          ],
        ),
      )

  -- No client can take a region from another: if a region is counted at least once for each
  -- mapping of this client and `other id` times besides, then whatever calls the client sends, in
  -- whatever order, with whatever arguments and however the connection ends, it is still counted
  -- `other id` times when `handle_calls` returns, and this client has no mapping left. This takes
  -- a kernel whose xpmem_make() sets errno on failure and whose xpmem_remove() does not fail, and
  -- fewer calls than make a counter overflow, and that
  -- each region has a mapping before.
  pub handle_calls-keeps :
      SetsErrno kernel
      → Removes kernel
      → (other : ℕ → ℕ) (incoming : List (Incoming bm kernel)) (c : Client) (m : Cm bm kernel)
        (r : List CallResult × Server bm kernel)
      → Live m.regions
      → ((id : ℕ) → mapcount_of m.regions id + length incoming < u64)
      → ((id : ℕ) → other id + count_id id c.mappings ≤ mapcount_of m.regions id)
      → handle_calls bm kernel incoming c m ≡ some r
      → (r.1.client.mappings ≡ []) × ((id : ℕ) → other id ≤ mapcount_of r.1.manager.regions id)
  unfolding handle_calls
  handle_calls-keeps errno removes other [] c m r live room backed e =
      let (s, left, k) = >>=-eq-some (leave bm kernel c m) _ e in
      rw (← some_inj _ _ k)
        (leave-keeps removes other c m s live (λ id. omega (arith, room id)) backed left)
  handle_calls-keeps errno removes other (closed ∷ rest) c m r live room backed e =
      let (s, left, k) = >>=-eq-some (leave bm kernel c m) _ e in
      rw (← some_inj _ _ k)
        (leave-keeps removes other c m s live (λ id. omega (arith, room id)) backed left)
  handle_calls-keeps errno removes other (call params writable ∷ rest) c m r live room backed e =
      elim (Option-cases (handle_call bm kernel c m params)) [
        | inl stuck ↦ let k = rw (stuck, handle_calls) at e in absurd cc
        | inr (a, done) ↦
            let balance =
              handle_call-Balance bm kernel errno removes c m params a live
                (λ id. omega (arith, room id)) (λ id. omega (arith, backed id)) done in
            let backed' : (id : ℕ)
                → other id + count_id id a.2.client.mappings ≤ mapcount_of a.2.manager.regions id =
              λ id. omega (arith, backed id, balance.covered id) in
            let room' : (id : ℕ) → mapcount_of a.2.manager.regions id + length rest < u64 =
              λ id. omega (arith, room id, balance.grows id) in
            let e1 = rw (done, handle_calls) at e in
            elim (Bool-cases writable) [
              | inl sent ↦
                  let (t, more, k) =
                    >>=-eq-some (handle_calls bm kernel rest a.2.client a.2.manager) _
                      (rw (sent) at e1) in
                  rw (← some_inj _ _ k) (
                    handle_calls-keeps errno removes other rest a.2.client a.2.manager t
                      balance.live room' backed' more)
              | inr unsent ↦
                  let (s, left, k) =
                    >>=-eq-some (leave bm kernel a.2.client a.2.manager) _ (rw (unsent) at e1) in
                  rw (← some_inj _ _ k) (
                    leave-keeps removes other a.2.client a.2.manager s balance.live
                      (λ id. omega (arith, room' id)) backed' left)
            ]
      ]
