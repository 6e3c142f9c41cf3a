-- ===== src/Syscall/Rights.antt =====
-- Which resources the calls of src/isr/system.c may change hands of.
use dek_os.Base.{
  ℕ, ◌%◌, ◌^◌, ◌≡◌, ◌≢◌, refl, ◌∙◌, inl, inr, ◌⊎◌, true, false, ◌==◌, Bool-cases, arith, Run, ok,
  Ensures, Ensures-ok, Ensures-if, Ensures->>=, null,
}
use dek_os.Sched.{Pid}
use dek_os.Resource.{
  Resources, Result, result_ok, put, released, join_next, join_previous, leave_parent, enter_pool,
  relink, resource_unlink_k, resource_release_k, resource_handover_k, resource_get_from_rid,
}
use dek_os.Resource.Access.{get_from_rid-IsOwned}
use dek_os.Syscall.{Machine, Call, Reply, returned, minus_one, sched_of, caller}
use dek_os.Syscall.Handlers.{
  on_resource, with_resources, receiver, sys_rreq, sys_rdel, sys_rgive, sys_rprot,
}

-- `RREQ` of a resource that is not protected makes the process that calls its owner, whoever owned it.
pub rreq_lem :
    (c : Call) (m : Machine) (rp : ℕ)
    → resource_get_from_rid c.arg1 true m.resources ≡ ok rp
    → rp ≢ null
    → ((m.resources.node rp).protected ≡ true) × (sys_rreq c m ≡ ok (returned minus_one, m))
      ⊎ ((m.resources.node rp).protected ≡ false)
        × ((m' : Machine) × (sys_rreq c m ≡ ok (returned ((m.resources.node rp).rid % 2 ^ 32), m'))
            × ((m'.resources.node rp).owner ≡ (sched_of m).current_pid))
unfolding sys_rreq
rreq_lem c m rp found present =
    let here : (rp == null) ≡ false = ground (arith, present) in
    let same : (rp == rp) ≡ true = ground arith in
    let granted =
      with_resources
        (put rp (record (m.resources.node rp) { owner = (sched_of m).current_pid }) m.resources)
        m in
    elim (Bool-cases (m.resources.node rp).protected) [
      | inl held ↦ inl (held, rw (found, here, held) refl)
      | inr free ↦ inr (free, (granted, rw (found, here, free) refl, rw same refl))
    ]

-- The owner and the protection of resource `q` are the same.
pub record SameRights (q : ℕ) (s s' : Resources) : Type 0 where
  pub owner : (s'.node q).owner ≡ (s.node q).owner
  pub protected : (s'.node q).protected ≡ (s.node q).protected

SameRights-refl : {q : ℕ} {s : Resources} → SameRights q s s
SameRights-refl = record { owner = refl; protected = refl }

SameRights-trans :
    {q : ℕ} {s t u : Resources} → SameRights q s t → SameRights q t u → SameRights q s u
SameRights-trans v w = record { owner = w.owner ∙ v.owner; protected = w.protected ∙ v.protected }

module _ (q rp : ℕ) where
  join_next-SameRights : (s : Resources) → SameRights q s (join_next rp s)
  unfolding join_next
  join_next-SameRights s = record { owner = ground arith; protected = ground arith }

  join_previous-SameRights : (s : Resources) → SameRights q s (join_previous rp s)
  unfolding join_previous
  join_previous-SameRights s = record { owner = ground arith; protected = ground arith }

  leave_parent-SameRights : (s : Resources) → SameRights q s (leave_parent rp s)
  unfolding leave_parent
  leave_parent-SameRights s = record { owner = ground arith; protected = ground arith }

  enter_pool-SameRights : (s : Resources) → SameRights q s (enter_pool rp s)
  unfolding enter_pool
  enter_pool-SameRights s = record { owner = ground arith; protected = ground arith }

  relink-SameRights : (s : Resources) → SameRights q s (relink rp s)
  unfolding relink
  relink-SameRights s =
      let one = join_next rp s in
      let two = join_previous rp one in
      let three = leave_parent rp two in
      SameRights-trans (join_next-SameRights s) (
        SameRights-trans (join_previous-SameRights one)
          (SameRights-trans (leave_parent-SameRights two) (enter_pool-SameRights three)))

  unlink-SameRights : (s : Resources) → SameRights q s (resource_unlink_k rp s).1
  unfolding resource_unlink_k
  unlink-SameRights s =
      let w = relink-SameRights s in
      record { owner = ground (arith, w.owner); protected = ground (arith, w.protected) }

  released-SameRights : (out : Result × Resources) → q ≢ rp → SameRights q out.1 (released rp out).1
  released-SameRights (result_ok, s) other = record {
    owner = ground (arith, other);
    protected = ground (arith, other);
  }
  released-SameRights (_, s) other = SameRights-refl

  release-SameRights : (s : Resources) → q ≢ rp → SameRights q s (resource_release_k rp s).1
  unfolding resource_release_k
  release-SameRights s other =
      let w =
        SameRights-trans (unlink-SameRights s)
          (released-SameRights (resource_unlink_k rp s) other) in
      record { owner = ground (arith, w.owner); protected = ground (arith, w.protected) }

  handover-SameRights :
      (dest : Pid) (s : Resources) → q ≢ rp → SameRights q s (resource_handover_k rp dest s).1
  unfolding resource_handover_k
  handover-SameRights dest s other = record {
    owner = ground (arith, other);
    protected = ground (arith, other);
  }

module _ (c : Call) (m : Machine) (q : ℕ)
    (foreign : (m.resources.node q).owner.num ≢ caller m) where
  -- A call that leaves the rights of resource `q` alone.
  abbrev pub Spares : Run (Reply × Machine) → Type 0
  Spares run = Ensures (λ (out : Reply × Machine). SameRights q m.resources out.1.resources) run

  -- A call on a resource that the process owns is not on `q`.
  owned-Spares :
      (next : ℕ → Run (Reply × Machine))
      → ((rp : ℕ) → q ≢ rp → Spares (next rp))
      → Spares (on_resource false c m next)
  owned-Spares next spares =
      Ensures->>= (resource_get_from_rid c.arg1 false m.resources)
        (record { returns = λ rp e. get_from_rid-IsOwned c.arg1 rp m.resources e })
        (λ rp owned. elim (Bool-cases (rp == null)) [
          | inl none ↦ rw none (Ensures-ok SameRights-refl)
          | inr some ↦ rw some (spares rp (λ e. foreign (rw e (owned (ground arith)).1)))
        ])

  -- `RDEL`, `RGIVE` and `RPROT` change neither the owner nor the protection of a resource that the
  -- process that calls does not own.
  pub foreign-SameRights : Spares (sys_rdel c m) × Spares (sys_rgive c m) × Spares (sys_rprot c m)
  unfolding sys_rdel sys_rgive sys_rprot
  foreign-SameRights = (
    owned-Spares _ (λ rp other. Ensures-ok (release-SameRights q rp m.resources other)),
    owned-Spares _ (λ rp other.
        Ensures-if (m.resources.node rp).protected (Ensures-ok SameRights-refl)
          (Ensures-ok (handover-SameRights q rp (receiver c m) m.resources other))),
    owned-Spares _ (λ rp other.
        Ensures-ok (record { owner = ground (arith, other); protected = ground (arith, other) })),
  )
