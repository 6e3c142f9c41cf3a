-- ===== src/Resource/Links.antt =====
-- The lists that resources stand in, src/resource/main.c.
use dek_os.Base.{ℕ, ◌≡◌, ◌≢◌, refl, sym, ◌∙◌, arith, true, false, ◌==◌, null}
use dek_os.Resource.{
  Resources, result_ok, corrupted, self, join_next, join_previous, leave_parent, enter_pool, relink,
  resource_unlink_k,
}

-- `head`, which has no children, belongs to the process that runs, and has the pool as its parent and no
-- sibling before it.
pub record Waits (head : ℕ) (s : Resources) : Type 0 where
  pub present : (head ≢ null) × (s.pool ≢ null) × (head ≢ s.pool)
  pub previous : (s.node head).previous_sibling ≡ null
  pub parent : (s.node head).parent ≡ s.pool
  pub childless : (s.node head).first_child ≡ null
  pub owned : (s.node head).owner.num ≡ self s

module _ (head rp : ℕ) where
  join_next-Waits :
      (s : Resources) → (s.node rp).next_sibling ≢ head → Waits head s → Waits head (join_next rp s)
  unfolding join_next
  join_next-Waits s apart v = ground (arith, v.present, v.previous, v.parent, v.childless, v.owned)

  join_previous-Waits : (s : Resources) → Waits head s → Waits head (join_previous rp s)
  unfolding join_previous
  join_previous-Waits s v = ground (arith, v.present, v.previous, v.parent, v.childless, v.owned)

  leave_parent-Waits : (s : Resources) → rp ≢ null → Waits head s → Waits head (leave_parent rp s)
  unfolding leave_parent
  leave_parent-Waits s here v =
      ground (arith, v.present, v.previous, v.parent, v.childless, v.owned)

  enter_pool-Waits : (s : Resources) → head ≢ rp → Waits head s → Waits head (enter_pool rp s)
  unfolding enter_pool
  enter_pool-Waits s other v = ground (arith, v.present, v.previous, v.parent, v.childless, v.owned)

relink-Waits :
    (head rp : ℕ) (s : Resources)
    → rp ≢ null
    → head ≢ rp
    → (s.node rp).next_sibling ≢ head
    → Waits head s
    → Waits head (relink rp s)
unfolding relink
relink-Waits head rp s here other apart v = enter_pool-Waits head rp _ other (
    leave_parent-Waits head rp _ here
      (join_previous-Waits head rp _ (join_next-Waits head rp s apart v)))

first-relink : (rp : ℕ) (s : Resources) → ((relink rp s).node (relink rp s).pool).first_child ≡ rp
unfolding relink enter_pool
first-relink rp s = ground arith

unlink_relinks :
    (rp : ℕ) (s : Resources)
    → (resource_unlink_k rp s).0 ≡ result_ok
    → (rp ≢ null) × ((resource_unlink_k rp s).1 ≡ relink rp s)
unfolding resource_unlink_k
unlink_relinks rp s h = ground arith

unlink_corrupted :
    (head : ℕ) (t : Resources)
    → (t.node t.pool).first_child ≢ head
    → Waits head t
    → resource_unlink_k head t ≡ (corrupted, t)
unfolding resource_unlink_k
unlink_corrupted head t other v =
    let here : (head == null) ≡ false = ground (arith, v.present) in
    let pooled : (t.pool == null) ≡ false = ground (arith, v.present) in
    let owned : ((t.node head).owner.num == self t) ≡ true = ground (arith, v.owned) in
    let not_first : ((t.node t.pool).first_child == head) ≡ false = ground arith in
    rw (here, owned, v.childless, v.parent, v.previous, pooled, not_first) refl

-- `ResourceUnlinkK` puts a resource at the front of the pool without setting the back link of the one
-- that was first there: that one, which still has no previous sibling, and no children, and belongs to
-- the process that runs, can afterwards not be unlinked, the call giving RESULT_CORRUPTED.
pub unlink_after_unlink :
    (head rp : ℕ) (s : Resources)
    → (resource_unlink_k rp s).0 ≡ result_ok
    → head ≢ rp
    → (s.node rp).next_sibling ≢ head
    → Waits head s
    → let t = (resource_unlink_k rp s).1 in resource_unlink_k head t ≡ (corrupted, t)
unlink_after_unlink head rp s done other apart v =
    let (here, e) = unlink_relinks rp s done in
    rw e (
      unlink_corrupted head (relink rp s) (λ same. other (sym same ∙ first-relink rp s))
        (relink-Waits head rp s here other apart v))
