-- ===== src/Duration/Show.antt =====
-- The `Display` text of src/types/duration.rs.
use lambda_durable_execution.Base.{
  ℕ, String, List, [], ◌∷◌, ◌++◌, ltb, ◌==◌, ◌||◌, if◌then◌else◌, is_empty, concat, show,
}
use lambda_durable_execution.Duration.{Duration}

abbrev part : ℕ → String → String
part n unit = concat (show n ∷ unit ∷ (if n == 1 then "" else "s") ∷ [])

abbrev push : ℕ → String → List String → List String
push n unit parts = if ltb 0 n then parts ++ part n unit ∷ [] else parts

-- `parts.join(", ")`.
join : List String → List String
join [] = []
join (p ∷ []) = p ∷ []
join (p ∷ q ∷ ps) = p ∷ ", " ∷ join (q ∷ ps)

unfoldable pub show_duration : Duration → String
unfolding join
show_duration d =
    let parts = push d.minutes " minute" (push d.hours " hour" (push d.days " day" [])) in
    let all =
      if ltb 0 d.seconds || is_empty parts then parts ++ part d.seconds " second" ∷ [] else parts in
    concat (join all)
