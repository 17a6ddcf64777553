-- ===== src/Web/Routes/Actions.antt =====
-- The server against the transition system of the service: what a request makes it do, and for whom.
use pf_media.Base.{Str, ℕ, ◌≡◌, ◌∙◌, ap, refl, Option, none, some, str_eq, arith}
use pf_media.Domain.{Result}
use pf_media.Exec.{World}
use pf_media.Auth.{User}
use pf_media.Service.{Media}
use pf_media.Service.FolderTree
use pf_media.Service.Steps
use pf_media.Service.Steps.{Actor, user, visitor, processor, nobody, Step, outside, Reach}
use pf_media.Web.{Request, Decoders, Response}
use pf_media.Web.Handlers
use pf_media.Web.Handlers.{
  list_all, with_id, answer_loop, files_prefix, folders_prefix, links_prefix, jobs_prefix,
}
use pf_media.Web.Acting.{
  Acts, here, next, Does, Calls-Step, Does-call, Calls-pure, Calls-bind, Does-answer, Does-only,
  Does-with_body, Does-if, Does-with_id,
}
use pf_media.Web.Routes.{Server, dispatch}

-- The handlers of a signed-in user make the calls of that user.
module _ {D E : Type 0} (m : Media D E) (decode : Decoders) (May : Actor → Type 0) (u : User)
    (may : May (user u.sub u.org_id)) (r : Request) where
  list_files-Does : Does m May (Handlers.list_files m decode u r)
  unfolding Handlers.list_files
  list_files-Does = Does-answer m May _ _ _ (
      Calls-bind m May _ _ (Calls-Step m May _ _ may (λ w. Steps.lists_files _ _ _ _)) λ fs.
        Calls-bind m May _ _ (Calls-Step m May _ _ may (λ w. Steps.gets_quota _ _)) λ used.
          Calls-bind m May _ _ (Calls-Step m May _ _ may (λ w. Steps.lists_folders _ _ _))
            λ ds. Calls-pure m May _)

  presign-Does : Does m May (Handlers.presign m decode u r)
  unfolding Handlers.presign
  presign-Does =
      Does-with_body m May _ _ λ body. Does-call m May _ _ _ _ may (λ w. Steps.presigns _ _ body)

  complete-Does : Does m May (Handlers.complete m decode u r)
  unfolding Handlers.complete
  complete-Does =
      Does-with_body m May _ _
        λ body. Does-call m May _ _ _ _ may (λ w. Steps.completes _ _ body.file_id body.etag)

  get_quota-Does : Does m May (Handlers.get_quota m decode u r)
  unfolding Handlers.get_quota
  get_quota-Does = Does-call m May _ _ _ _ may (λ w. Steps.gets_quota _ _)

  create_folder-Does : Does m May (Handlers.create_folder m decode u r)
  unfolding Handlers.create_folder
  create_folder-Does =
      Does-with_body m May _ _
        λ body. Does-call m May _ _ _ _ may (λ w. Steps.creates_folder _ _ body.name body.parent_id)

  list_folders-Does : Does m May (Handlers.list_folders m decode u r)
  unfolding Handlers.list_folders
  list_folders-Does = Does-call m May _ _ _ _ may (λ w. Steps.lists_folders _ _ _)

  get_folder-Does : Does m May (Handlers.get_folder m decode u r)
  unfolding Handlers.get_folder
  get_folder-Does =
      Does-with_id m May _ _ λ id. Does-call m May _ _ _ _ may (λ w. Steps.gets_folder _ _ id)

  get_file-Does : Does m May (Handlers.get_file m decode u r)
  unfolding Handlers.get_file
  get_file-Does = Does-call m May _ _ _ _ may (λ w. Steps.gets_file _ _ _)

  delete_file-Does : Does m May (Handlers.delete_file m decode u r)
  unfolding Handlers.delete_file
  delete_file-Does =
      Does-with_id m May _ _ λ id. Does-call m May _ _ _ _ may (λ w. Steps.deletes_file _ _ id)

  create_share-Does : Does m May (Handlers.create_share m decode u r)
  unfolding Handlers.create_share
  create_share-Does = Does-with_body m May _ _ λ body.
      Does-call m May _ _ _ _ may (λ w. Steps.creates_share _ _ body.file_id _ body.password)

  list_shares-Does : Does m May (Handlers.list_shares m decode u r)
  unfolding Handlers.list_shares
  list_shares-Does = Does-call m May _ _ _ _ may (λ w. Steps.lists_shares _ _)

  delete_share-Does : Does m May (Handlers.delete_share m decode u r)
  unfolding Handlers.delete_share
  delete_share-Does =
      Does-with_id m May _ _ λ id. Does-call m May _ _ _ _ may (λ w. Steps.deletes_share _ _ id)

  get_job-Does : Does m May (Handlers.get_job m decode u r)
  unfolding Handlers.get_job
  get_job-Does =
      Does-with_id m May _ _ λ id. Does-call m May _ _ _ _ may (λ w. Steps.gets_job _ _ id)

  retry_job-Does : Does m May (Handlers.retry_job m decode u r)
  unfolding Handlers.retry_job
  retry_job-Does =
      Does-with_id m May _ _ λ id. Does-call m May _ _ _ _ may (λ w. Steps.retries_job _ _ id)

  delete_folder-Does :
      (depth rounds : ℕ) → Does m May (Handlers.delete_folder m decode depth rounds u r)
  unfolding Handlers.delete_folder answer_loop
  delete_folder-Does depth rounds =
      Does-with_id m May _ _
        λ id. record { acts = λ w w' response e. ended id w w' response _ refl e }
    where
      ended :
          (id : Str) (w w' : World D E) (response : Response)
          (o : Option (Result (Unit {0}) × World D E))
          → FolderTree.delete_folder m depth rounds u.sub u.org_id id w ≡ o
          → answer_loop o ≡ some (response, w')
          → Acts m May w w'
      ended id w w' response none e f = cc
      ended id w w' response (some (x, t)) e f =
          next _ may here
            (Steps.deletes_folder depth rounds _ _ id x (e ∙ ap (λ y. some (x, y)) (ground arith)))

-- The handler that `dispatch` picks makes calls of the user.
module _ {K D E : Type 0} (server : Server K D E) (depth rounds : ℕ) (May : Actor → Type 0)
    (u : User) (may : May (user u.sub u.org_id)) (r : Request) where
  open server use {media, decode}

  pub dispatch-Does : Does media May (dispatch server depth rounds u r)
  unfolding dispatch
  dispatch-Does =
      (Does-if media May _ _ _ (presign-Does media decode May u may r) (
        Does-if media May _ _ _ (complete-Does media decode May u may r) (
          Does-if media May _ _ _ (list_files-Does media decode May u may r) (
            Does-if media May _ _ _ (get_quota-Does media decode May u may r) (
              Does-if media May _ _ _ (create_folder-Does media decode May u may r) (
                Does-if media May _ _ _ (list_folders-Does media decode May u may r) (
                  Does-if media May _ _ _ (delete_folder-Does media decode May u may r depth rounds)
                    (Does-if media May _ _ _ (get_folder-Does media decode May u may r) (
                      Does-if media May _ _ _ (delete_file-Does media decode May u may r) (
                        Does-if media May _ _ _ (get_file-Does media decode May u may r) (
                          Does-if media May _ _ _ (create_share-Does media decode May u may r) (
                            Does-if media May _ _ _ (list_shares-Does media decode May u may r) (
                              Does-if media May _ _ _ (delete_share-Does media decode May u may r) (
                                Does-if media May _ _ _ (get_job-Does media decode May u may r) (
                                  Does-if media May _ _ _ (retry_job-Does media decode May u may r)
                                    (Does-only media May _))))))))))))))))
