-- ===== src/Examples/Limiter.antt =====
-- The rate limiter and the names at concrete inputs.
use text.Mathlib.TextEquality.{eq_iff}
use Prim.Native.String.{len}
use kwarm.Base.{
  ◌+◌, ◌≤◌, ◌≡◌, refl, true, false, String, List, [], ◌∷◌, length, pos, negsuc, arith, get,
}
use kwarm.RateLimiter.{
  RateLimiter, new_rate_limiter, try_acquire, release, current_pulls_for_node, Call, acquires,
  releases, run,
}
use kwarm.RateLimiter.Bounds.{IsValid, run-new-IsValid}
use kwarm.RateLimiter.Slots.{
  Holds, slots_after, run_slots, has_room, count, remove, run-new-Holds, release_unheld,
}
use kwarm.Puller.{generate_job_name, hash_node_name}
use kwarm.Puller.Names.{len-generate_job_name-le, generate_job_name_collides, generate_job_name_inj}
use kwarm.Deploy.Images.{generate_prepullimage_name}
use kwarm.Deploy.Names.{generate_prepullimage_name_collides}
use kwarm.Examples.World.{lib}

abbrev calls : List Call
calls =
    acquires "a"
    ∷ (acquires "b" ∷ (acquires "c" ∷ (releases "a" ∷ (acquires "b" ∷ (acquires "c" ∷ [])))))

-- The third call finds no slot, the fifth none on its node.
calls_test : run_slots 2 1 [] calls ≡ "c" ∷ ("b" ∷ [])
unfolding run_slots slots_after has_room remove count
calls_test = refl

run-new-IsValid_example : IsValid (run (new_rate_limiter (negsuc 0) (pos 1)) calls)
run-new-IsValid_example = run-new-IsValid (negsuc 0) (pos 1) calls

run-new-Holds_example :
    let r = new_rate_limiter (pos 2) (pos 1) in
    let slots = run_slots r.max_concurrent_pulls r.max_pulls_per_node [] calls in
    Holds (run r calls) slots
    × (length slots ≤ r.max_concurrent_pulls)
    × ((node : String) → count node slots ≤ r.max_pulls_per_node)
unfolding new_rate_limiter slots_after has_room remove count
run-new-Holds_example = run-new-Holds (pos 2) (pos 1) calls (omega arith, tt)

-- Both slots are on "a" and "b"; "c" has none.
abbrev full : RateLimiter
full = record {
  max_concurrent_pulls = 2;
  max_pulls_per_node = 1;
  current_pulls = 2;
  node_current_pulls = ("a", 1) ∷ (("b", 1) ∷ []);
}

full-Holds : Holds full ("a" ∷ ("b" ∷ []))
unfolding get count
full-Holds = record {
  total = refl;
  each = λ k. ground (arith, eq_iff "a" k, eq_iff "b" k, eq_iff "a" "b");
}

release_unheld_example :
    ((release full "c").current_pulls + 1 ≡ 2)
    × (current_pulls_for_node (release full "c") "d" ≡ count "d" ("a" ∷ ("b" ∷ [])))
    × ((try_acquire full "d").1 ≡ false)
    × ((try_acquire (release full "c") "d").1 ≡ true)
unfolding count
release_unheld_example =
    release_unheld full "c" "d" ("a" ∷ ("b" ∷ [])) full-Holds refl refl (omega arith) (omega arith)

abbrev long_name : String
long_name = "a-deployment-with-a-long-name-in-a-large-organisation-00000000"

len-generate_job_name-le_example : len (generate_job_name lib long_name "node-1") ≤ 63
len-generate_job_name-le_example = len-generate_job_name-le lib long_name "node-1"

generate_job_name_collides_example :
    generate_job_name lib long_name "node-1" ≡ generate_job_name lib long_name "node-2"
generate_job_name_collides_example =
    generate_job_name_collides lib long_name "node-1" "node-2" (omega arith)

generate_job_name_inj_example :
    (◌≡◌ {A = String} "web" "web") × (hash_node_name lib "node-2" ≡ hash_node_name lib "node-3")
unfolding hash_node_name generate_job_name
generate_job_name_inj_example =
    generate_job_name_inj lib "web" "web" "node-2" "node-3" (omega arith) (omega arith) refl refl
      refl

generate_prepullimage_name_collides_example :
    generate_prepullimage_name lib long_name "web:1"
    ≡ generate_prepullimage_name lib long_name "web:2"
generate_prepullimage_name_collides_example =
    generate_prepullimage_name_collides lib long_name "web:1" "web:2" (omega arith)
