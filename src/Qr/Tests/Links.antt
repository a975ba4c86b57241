-- ===== src/Qr/Tests/Links.antt =====
-- Runs of the theorems on the links of the service.
use sd_practice_qr_code_gene.Base.{some, ◌++◌, ◌≡◌, refl, arith}
use sd_practice_qr_code_gene.Base.{dec_lt}
use sd_practice_qr_code_gene.Base.Order.{lt_wf}
use sd_practice_qr_code_gene.Base.Text.{codes, text_dec}
use sd_practice_qr_code_gene.Base.Text.{is_in, lower, lower_char}
use sd_practice_qr_code_gene.Qr.UrlValidator.{
  validate_url, is_blocked_domain, rstrip_slash, lstrip_slash,
}
use sd_practice_qr_code_gene.Qr.Service.{UrlMapping, World}
use sd_practice_qr_code_gene.Qr.Token.{generate_token, from_bytes, nth, encode_loop, base62_encode}
use sd_practice_qr_code_gene.Qr.Cache.{get_cached_url, decode, is_cached_gone}
use sd_practice_qr_code_gene.Base.{false}
use sd_practice_qr_code_gene.Qr.Routes.{CreateRequest, ok, raise, is_expired, is_refused}
use sd_practice_qr_code_gene.Qr.Routes.Create.{new_mapping, create_loop, created, create_body}
use sd_practice_qr_code_gene.Qr.Routes.Redirect.{redirect, redirect_miss, redirect_row}
use sd_practice_qr_code_gene.Qr.Routes.Update.{update_qr, delete_qr}
use sd_practice_qr_code_gene.Qr.Routes.Coherence.{IsLive}
use sd_practice_qr_code_gene.Qr.Routes.Keeps.{IsSound}
use sd_practice_qr_code_gene.Qr.Routes.Reach.{redirects, deletes, Reach, here, next, Reach-IsSound}
use sd_practice_qr_code_gene.Qr.Routes.Responses.{redirect-IsLive, delete-redirect}
use sd_practice_qr_code_gene.Qr.Routes.Races.{after_race, redirect-after_race}
use sd_practice_qr_code_gene.Qr.Routes.Changes.{create-redirect, update-redirect}
use sd_practice_qr_code_gene.Qr.Tests.{
  test_redis, test_database, test_lib, test_hash, row, empty_store, one_link, row-IsLive, accepted,
}

one_link-IsSound : IsSound test_redis test_database one_link
unfolding get_cached_url decode
one_link-IsSound = record { entry = λ t u e. absurd (ground arith) }

-- A redirect, and then a deletion.
abbrev after_redirect : World test_redis test_database
after_redirect = (redirect test_redis test_database one_link (codes "abc") 7 8).0

abbrev after_delete : World test_redis test_database
after_delete = (delete_qr test_redis test_database after_redirect (codes "abc") 9).0

two_steps : Reach test_lib test_hash test_redis test_database one_link after_delete
two_steps =
    next (next here (redirects one_link (codes "abc") 7 8)) (deletes after_redirect (codes "abc") 9)

Reach-IsSound_example : IsSound test_redis test_database after_delete
Reach-IsSound_example =
    Reach-IsSound test_lib test_hash test_redis test_database two_steps one_link-IsSound

redirect_works :
    (redirect test_redis test_database one_link (codes "abc") 7 8).1
    ≡ ok (record { url = codes "https://x.io"; scanned = codes "abc" })
unfolding text_dec redirect redirect_miss redirect_row get_cached_url decode is_cached_gone
    is_expired
redirect_works = refl

redirect-IsLive_example :
    (m : UrlMapping) × IsLive test_database one_link.db (codes "abc") m
    × (codes "https://x.io" ≡ m.original_url)
redirect-IsLive_example =
    redirect-IsLive test_redis test_database one_link (codes "abc") 7 8
      (record { url = codes "https://x.io"; scanned = codes "abc" }) one_link-IsSound redirect_works

delete-redirect_example :
    (redirect test_redis test_database
      (delete_qr test_redis test_database one_link (codes "abc") 9).0
      (codes "abc")
      10
      11).1
    ≡ raise 410
delete-redirect_example =
    delete-redirect test_redis test_database one_link (codes "abc") 9 10 11 row row-IsLive

abbrev request : CreateRequest
request = record { url = codes "http://A.io/q/"; expires_at = some 3; has_zone = false }

create_works :
    (create_body test_lib test_hash test_redis test_database one_link request (λ i. i) 100).1
    ≡ ok (record {
      token = generate_token test_hash (codes "https://a.io/q") 0;
      short_url =
          codes "http://localhost:8100/r/" ++ generate_token test_hash (codes "https://a.io/q") 0;
      original_url = codes "https://a.io/q";
    })
unfolding create_body created create_loop new_mapping generate_token base62_encode encode_loop nth
    from_bytes validate_url is_blocked_domain rstrip_slash lstrip_slash is_in lower lower_char
    is_refused text_dec lt_wf dec_lt
create_works = refl

create-redirect_example :
    (redirect test_redis test_database
      (create_body test_lib test_hash test_redis test_database one_link request (λ i. i) 100).0
      (generate_token test_hash (codes "https://a.io/q") 0)
      200
      201).1
    ≡ ok (record {
      url = codes "https://a.io/q";
      scanned = generate_token test_hash (codes "https://a.io/q") 0;
    })
create-redirect_example =
    create-redirect test_lib test_hash test_redis test_database one_link request (λ i. i) 100 200
      201 empty_store _ refl create_works

update-redirect_example :
    (redirect test_redis test_database
      (update_qr test_lib test_redis test_database one_link
        (codes "abc")
        (record { url = some (codes "http://A.io/q/"); expires_at = some 50; has_zone = false })
        20).0
      (codes "abc")
      60
      61).1
    ≡ raise 410
unfolding is_expired is_refused
update-redirect_example =
    update-redirect test_lib test_redis test_database one_link (codes "abc")
      (record { url = some (codes "http://A.io/q/"); expires_at = some 50; has_zone = false }) row
      (codes "http://A.io/q/") (codes "https://a.io/q") 20 60 61 row-IsLive refl accepted

redirect-after_race_example :
    (redirect test_redis test_database
      (after_race test_redis test_database one_link (codes "abc") 9 7 10 row)
      (codes "abc")
      20
      21).1
    ≡ ok (record { url = codes "https://x.io"; scanned = codes "abc" })
unfolding is_expired is_refused
redirect-after_race_example =
    redirect-after_race test_redis test_database one_link (codes "abc") 9 7 10 20 21 row empty_store
      104 (codes "ttps://x.io") refl row-IsLive refl refl
