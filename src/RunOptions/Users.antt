-- ===== src/RunOptions/Users.antt =====
-- The user that src/run_options.rs lets a container run as.

use kube_shim.Prelude.{
  ℕ, ◌≡◌, ◌≢◌, ◌⊎◌, inl, inr, refl, Bool, true, Option, none, some, String, ◌<>◌, show_ℕ,
}
use kube_shim.Program.{ok}
use kube_shim.Context.{Json}
use kube_shim.RunOptions.{RunOptions, or, is_zero, user_of, check_non_root}
use kube_shim.RunOptions.Parse.{parse_options}
use kube_shim.RunOptions.Steps.{parse_options-ok}

-- a user, with or without a group
abbrev pub IsUser : ℕ → String → Type 0
IsUser uid user = (user ≡ show_ℕ uid) ⊎ ((gid : ℕ) × (user ≡ show_ℕ uid <> ":" <> show_ℕ gid))

user_of-some :
    (uid gid : Option ℕ) (of_container : Bool) (user : Option String) (u : String)
    → user_of uid gid of_container ≡ ok user
    → user ≡ some u
    → (n : ℕ) × (uid ≡ some n) × IsUser n u
unfolding user_of
user_of-some none none b user u h e = cc (h, e)
user_of-some none (some gid) b user u h e = cc h
user_of-some (some uid) none b user u h e = (uid, refl, inl (cc (h, e)))
user_of-some (some uid) (some gid) b user u h e = (uid, refl, inr (gid, cc (h, e)))

check_non_root-nonzero :
    (container_user pod_user : Option ℕ) (n : ℕ)
    → check_non_root true container_user pod_user ≡ ok tt
    → or container_user pod_user ≡ some n
    → n ≢ 0
unfolding check_non_root is_zero
check_non_root-nonzero container_user pod_user n h e z = cc (rw (e, z) at h)

module _ {V : Type 0} (json : Json V) where
  -- Under `runAsNonRoot`, a container that is given a user is given one whose number is not zero.
  pub parse_options-nonzero :
      (job_spec : V) (options : RunOptions) (user : String)
      → parse_options json job_spec ≡ ok options
      → options.run_as_non_root ≡ true
      → options.user ≡ some user
      → (uid : ℕ) × (uid ≢ 0) × IsUser uid user
  parse_options-nonzero job_spec options user h non_root e =
      let steps = parse_options-ok json job_spec options h in
      let (uid, e', is_user) = user_of-some _ _ _ options.user user steps.user_read e in
      (
        uid,
        check_non_root-nonzero steps.container_user steps.pod_user uid
            (rw non_root at steps.checked) e',
        is_user,
      )
