-- ===== src/Tests/Objects.antt =====
-- The theorems on the objects of the virtual file system, tried on the sample database.
use asio_ftp.Base.{◌≡◌, refl, true, false, none, Bytes, codes, same, is_empty, returned, inl}
use asio_ftp.Helpers.Paths.{child_path}
use asio_ftp.Database.Schema.{new_row, put_row}
use asio_ftp.Database.World.{World, data_file}
use asio_ftp.Database.Objects.{no_object, get_object, create_object, remove_fs_object}
use asio_ftp.Database.Objects.Lookup.{object_of_row}
use asio_ftp.Database.Objects.Create.{uuid, inserted, is_directory_path}
use asio_ftp.Database.Objects.Outcomes.{create_object-get_object, create_object_taken}
use asio_ftp.Database.Objects.Remove.{without, remove_fs_object_lem}
use asio_ftp.Database.Objects.Siblings.{remove_fs_object-siblings}
use asio_ftp.Database.Objects.Tree.{IsTree}
use asio_ftp.Database.Objects.Keeps.{create_object-IsTree, remove_fs_object-IsTree}
use asio_ftp.Database.Memory.{Memory, memory_sqlite, memory_tables}
use asio_ftp.Database.Memory.Lawful.{memory_sqlite-IsLawful}
use asio_ftp.Database.Memory.Rows.{row_at}
use asio_ftp.Tests.{rows, docs, kept, theirs, db, world, rand, db-HasIds, db-IsFresh, db-IsTree}

abbrev ann_id : Bytes
ann_id = codes "u1"

abbrev fresh_id : Bytes
fresh_id = uuid memory_sqlite rand world

abbrev behind : Bytes → World Memory
behind n = inserted memory_sqlite rand ann_id n (codes "/") 0 true world

root_is_directory : is_directory_path memory_sqlite memory_tables ann_id (codes "/") db ≡ true
unfolding same
root_is_directory = refl

create_object-get_object_example :
    (create_object memory_sqlite rand ann_id (codes "new") (codes "/") 0 true world
      ≡ returned (fresh_id, behind (codes "new")))
    × (get_object memory_sqlite ann_id (codes "new") (codes "/") (behind (codes "new"))
        ≡ returned (
          object_of_row (
              new_row memory_sqlite memory_tables db fresh_id
                (codes "new")
                (codes "/")
                0
                true
                ann_id),
          behind (codes "new"),
        ))
    × (row_at (behind (codes "new")).db.rows
        ≡ put_row (row_at rows) (
            new_row memory_sqlite memory_tables db fresh_id
              (codes "new")
              (codes "/")
              0
              true
              ann_id))
unfolding same
create_object-get_object_example =
    create_object-get_object memory_sqlite memory_tables memory_sqlite-IsLawful rand ann_id
      (codes "new") (codes "/") 0 true world db-HasIds root_is_directory refl db-IsFresh

create_object_taken_example :
    (create_object memory_sqlite rand ann_id (codes "theirs") (codes "/") 0 true world
      ≡ returned (fresh_id, behind (codes "theirs")))
    × (is_empty fresh_id ≡ false)
    × (row_at (behind (codes "theirs")).db.rows ≡ row_at rows)
    × (get_object memory_sqlite ann_id (codes "theirs") (codes "/") (behind (codes "theirs"))
        ≡ returned (no_object, behind (codes "theirs")))
unfolding same
create_object_taken_example =
    create_object_taken memory_sqlite memory_tables memory_sqlite-IsLawful rand ann_id
      (codes "theirs") (codes "/") 0 true world db-HasIds root_is_directory theirs refl refl

remove_fs_object_lem_example :
    (w' : World Memory) × (remove_fs_object memory_sqlite ann_id (codes "docs") (codes "/") world
      ≡ returned (true, w'))
    × (row_at (w'.db).rows
        ≡ without memory_sqlite memory_tables ann_id (codes "docs") (codes "/") docs (row_at rows))
    × (w'.files (data_file (codes "A1")) ≡ none)
unfolding same
remove_fs_object_lem_example =
    remove_fs_object_lem memory_sqlite memory_tables memory_sqlite-IsLawful ann_id (codes "docs")
      (codes "/") world docs db-HasIds refl refl

remove_fs_object-siblings_example :
    (w' : World Memory) × (remove_fs_object memory_sqlite ann_id (codes "docs") (codes "/") world
      ≡ returned (true, w'))
    × (row_at (w'.db).rows (codes "kept") (child_path (codes "/") (codes "docs-old")) ≡ none)
unfolding same child_path
remove_fs_object-siblings_example =
    remove_fs_object-siblings memory_sqlite memory_tables memory_sqlite-IsLawful ann_id
      (codes "docs") (codes "/") (codes "-old") (codes "kept") world docs kept db-HasIds refl refl
      refl refl refl

-- The runs whose results the last two are about.
creation :
    create_object memory_sqlite rand ann_id (codes "new") (codes "/") 0 true world
    ≡ returned (fresh_id, behind (codes "new"))
unfolding same
creation =
    (create_object-get_object memory_sqlite memory_tables memory_sqlite-IsLawful rand ann_id
      (codes "new") (codes "/") 0 true world db-HasIds root_is_directory refl db-IsFresh).0

removal :
    (w' : World Memory) × (remove_fs_object memory_sqlite ann_id (codes "docs") (codes "/") world
      ≡ returned (true, w'))
unfolding same
removal =
    let (w', e, table, gone) =
      remove_fs_object_lem memory_sqlite memory_tables memory_sqlite-IsLawful ann_id (codes "docs")
        (codes "/") world docs db-HasIds refl refl in
    (w', e)

create_object-IsTree_example : IsTree (row_at (behind (codes "new")).db.rows) ann_id
create_object-IsTree_example =
    create_object-IsTree memory_sqlite memory_tables memory_sqlite-IsLawful rand ann_id
      (codes "new") (codes "/") 0 true world fresh_id (behind (codes "new")) db-HasIds db-IsFresh
      (inl refl) creation db-IsTree

remove_fs_object-IsTree_example : IsTree (row_at ((removal.0).db).rows) ann_id
remove_fs_object-IsTree_example =
    remove_fs_object-IsTree memory_sqlite memory_tables memory_sqlite-IsLawful ann_id (codes "docs")
      (codes "/") world true removal.0 db-HasIds removal.1 db-IsTree
