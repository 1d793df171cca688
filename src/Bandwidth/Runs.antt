-- ===== src/Bandwidth/Runs.antt =====
-- What `run_benchmark` does with its array of times.
use u_clbench.Base.{
  ◌≡◌, refl, arith, List, [], ◌∷◌, ◌++◌, length, drop, replicate, ltb, if◌then◌else◌,
}
use u_clbench.Base.Run.{Run, done, fault, ◌>>=◌, write_cell}

module _ {F : Type 0} (z : F) where
  -- the writes of 0.0 at the head of `run_benchmark`
  unfoldable pub reset_times : List F → Run (List F)
  reset_times time_taken = do
    t1 ← write_cell time_taken 0 z
    t2 ← write_cell t1 1 z
    t3 ← write_cell t2 2 z
    t4 ← write_cell t3 3 z
    t5 ← write_cell t4 4 z
    write_cell t5 5 z

  -- `run_benchmark` sets the first six cells of the array of times to 0 where it has them; it
  -- writes outside an array of fewer than six cells.
  pub reset_times-length :
      (time_taken : List F)
      → reset_times time_taken
        ≡ (if ltb (length time_taken) 6 then fault else done (replicate 6 z ++ drop 6 time_taken))
  unfolding reset_times
  reset_times-length [] = refl
  reset_times-length (a ∷ []) = refl
  reset_times-length (a ∷ b ∷ []) = refl
  reset_times-length (a ∷ b ∷ c ∷ []) = refl
  reset_times-length (a ∷ b ∷ c ∷ d ∷ []) = refl
  reset_times-length (a ∷ b ∷ c ∷ d ∷ f ∷ []) = refl
  reset_times-length (a ∷ b ∷ c ∷ d ∷ f ∷ g ∷ rest) = ground arith
