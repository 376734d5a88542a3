-- ===== src/App/Overlaps.antt =====
-- Searches whose imports overlap.
use hax_war.Base.{
  ℕ, ◌≡◌, ◌≢◌, refl, true, some, [], ◌∷◌, get_elem?, get_elem?-append, get_elem?-set_last, length,
  Text, ◌∙◌,
}
use hax_war.Base.Int.{pos}
use hax_war.App.{
  importing, App, Html, typed, find_clicked, imported, joins, is_empty, click_find, finish_import,
  step, acts, run,
}
use hax_war.App.Form.{trim_name}
use hax_war.App.Entering.{Comes, Comes-on, clicked, enabled_for, asked-called, called}

module _ (html : Html) where
  -- The page with another name typed.
  abbrev renamed : Text → App → App
  renamed name a = record a { name = name; find_disabled = is_empty (trim_name name) }

  click-renamed :
      (name random : Text) (a : App)
      → trim_name name ≢ []
      → (step html (renamed name a) (find_clicked random)).0
        ≡ called html (trim_name name) (renamed name a)
  unfolding click_find
  click-renamed name random a h =
      clicked html random (renamed name a) (enabled_for html (trim_name name) h)
      ∙ asked-called html (trim_name name) random (renamed name a) h

-- While a search still waits for its import, on a page that shows its login form, another name that
-- is not blank can be typed and a second search be started; and then both calls of JoinQueue, that
-- of the first search too, ask for a match under the second name.
pub overlapping_searches-Comes :
    (html : Html) (a : App) (i : ℕ) (name random : Text)
    → get_elem? a.searches i ≡ some importing
    → a.page.ui.screen.login_active ≡ true
    → trim_name name ≢ []
    → Comes html
        (λ b. b.page.ui.client.player_id ≡ trim_name name)
        (joins (record { player_id = trim_name name; rating = pos 1500 })
          ∷ (joins (record { player_id = trim_name name; rating = pos 1500 }) ∷ []))
        a
        (typed name ∷ (find_clicked random ∷ (imported i ∷ (imported (length a.searches) ∷ []))))
unfolding step finish_import acts run
overlapping_searches-Comes html a i name random waits shown h =
    Comes-on html _ _ a (renamed html name a) (typed name) _ tt refl (
      Comes-on html _ _ (renamed html name a) _ (find_clicked random) _ shown
        (click-renamed html name random a h)
        (Comes-on html _ _ _ _ (imported i) _ (get_elem?-append a.searches (importing ∷ []) i waits)
          refl
          (Comes-on html _ [] _ _ (imported (length a.searches)) []
            (get_elem?-set_last a.searches i _ importing waits) refl
            (record { possible = tt; acted = refl; reached = refl }))))
