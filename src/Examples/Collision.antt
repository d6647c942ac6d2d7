-- ===== src/Examples/Collision.antt =====
-- Two dictionaries of different sizes that are serialized to the same bytes: the count of entries and
-- the length of the first key are two decimal numbers with nothing between them.
use imperecta.Wire.Utf8.{utf8}
use imperecta.Wire.Prefix.{lp_string}
use imperecta.Wire.Decimal.{decimal}
use imperecta.Base.{sorted, ◌≡◌, refl, [], ◌∷◌, Dict}
use imperecta.Payload.{canonical_str, Value, null, str}
use imperecta.Signing.{dict_enc}

abbrev one_entry : Dict Value
one_entry =
    (
      "kkN50:lbcdef",
      str "ppppppppppppppppppppppppppppppppppppppppN2:n0N2:n1N2:n2N2:n3N2:n4N2:n5N2:n6N2:n7N2:n8N",
    )
    ∷ []

abbrev eleven_entries : Dict Value
eleven_entries =
    ("kk", null)
    ∷ ("lbcdefS86:pppppppppppppppppppppppppppppppppppppppp", null)
    ∷ ("n0", null)
    ∷ ("n1", null)
    ∷ ("n2", null)
    ∷ ("n3", null)
    ∷ ("n4", null)
    ∷ ("n5", null)
    ∷ ("n6", null)
    ∷ ("n7", null)
    ∷ ("n8", null)
    ∷ []

same_bytes_test : dict_enc one_entry ≡ dict_enc eleven_entries
unfolding dict_enc decimal sorted lp_string utf8 canonical_str
same_bytes_test = refl
